-- ===== src/Calendar/Fetch/Guarded.antt =====
-- Every request of fetchCalendar has passed the checks, redirects included.
use hostrepository.Base.{
  ◌⊎◌, ℕ, zero, suc, ◌+◌, ◌≤◌, ◌≡◌, refl, sym, subst, and_true, leb-true, Bool, true, false, not,
  ◌&&◌, ◌||◌, Bool-cases, Option, none, some, inl, inr, List, [], ◌∷◌, ◌++◌, ◌==◌, leb, ltb, length,
  all, any, length-append, arith,
}
use hostrepository.Base.Text.{Text, codes, is_empty, same_text}
use hostrepository.Base.Result.{
  Result, ok, err, ◌>>=◌, >>=-eq-ok, or_throw, or_throw-eq-ok, require, require-eq-ok, throw_if,
  throw_if-eq-ok, ok_eq,
}
use hostrepository.Calendar.Fetch.{
  CalendarFetchError, CalendarFetchResult, fetched, Url, Response, Network, Request, invalid_url,
  not_https, has_credentials, other_port, forbidden_hostname, unresolved, reserved_network,
  too_large, http_status, web_page, normalize_hostname, is_forbidden_hostname,
  is_blocked_network_address, addresses_of, assert_safe_calendar_url, max_calendar_bytes,
  read_chunks, read_body, is_declared_large, read_limited_body, read_answer, is_web_page,
  is_redirect, follow, Answer, ends, redirects, redirected, answer_of, fetch_rounds, fetch_calendar,
}

-- Addresses that may be asked: at least one, none of them reserved.
abbrev pub are_open : Network → Option (List Text) → Bool
are_open net none = false
are_open net (some addresses) =
    not (length addresses == 0)
    && all (λ (a : Text). not (is_blocked_network_address net a)) addresses

-- What a request must satisfy.
abbrev pub is_guarded : Network → Request → Bool
is_guarded net (round, url) =
    (same_text url.protocol (codes "https:") && (is_empty url.username && is_empty url.password))
    && ((is_empty url.port || same_text url.port (codes "443"))
        && (not (is_forbidden_hostname (normalize_hostname url.hostname))
            && are_open net (addresses_of net round (normalize_hostname url.hostname))))

none_all :
    (p : Text → Bool) (xs : List Text) → any p xs ≡ false → all (λ (x : Text). not (p x)) xs ≡ true
none_all p [] h = refl
none_all p (x ∷ xs) h = ground (arith, none_all p xs)

not-eq-false : (b : Bool) → b ≡ false → not b ≡ true
not-eq-false true h = cc
not-eq-false false h = refl

assert-is_guarded :
    (net : Network) (round : ℕ) (raw_url : Text) {safe : Url}
    → assert_safe_calendar_url net round raw_url ≡ ok safe
    → is_guarded net (round, safe) ≡ true
unfolding assert_safe_calendar_url
assert-is_guarded net round raw_url {safe} h =
    let (url, parsed, h0) = >>=-eq-ok (or_throw (net.parse_url raw_url) invalid_url) _ h in
    let (u1, https, h1) =
      >>=-eq-ok (require (same_text url.protocol (codes "https:")) not_https) _ h0 in
    let (u2, plain, h2) =
      >>=-eq-ok (require (is_empty url.username && is_empty url.password) has_credentials) _ h1 in
    let (u3, port, h3) =
      >>=-eq-ok (require (is_empty url.port || same_text url.port (codes "443")) other_port) _ h2 in
    let hostname = normalize_hostname url.hostname in
    let (u4, allowed, h4) =
      >>=-eq-ok (throw_if (is_forbidden_hostname hostname) forbidden_hostname) _ h3 in
    let (addresses, resolved, h5) =
      >>=-eq-ok (or_throw (addresses_of net round hostname) unresolved) _ h4 in
    let (u6, some_address, h6) = >>=-eq-ok (throw_if (length addresses == 0) unresolved) _ h5 in
    let (u7, open_ones, h7) =
      >>=-eq-ok (throw_if (any (is_blocked_network_address net) addresses) reserved_network) _ h6 in
    let listed = or_throw-eq-ok (addresses_of net round hostname) unresolved resolved in
    let asked : are_open net (addresses_of net round hostname) ≡ true =
      subst (λ (o : Option (List Text)). are_open net o ≡ true) (sym listed)
        (and_true
          (not-eq-false (length addresses == 0)
            (throw_if-eq-ok (length addresses == 0) unresolved some_address))
          (none_all (is_blocked_network_address net) addresses (
            throw_if-eq-ok (any (is_blocked_network_address net) addresses) reserved_network
              open_ones))) in
    subst (λ (x : Url). is_guarded net (round, x) ≡ true) (ok_eq h7)
      (and_true
        (and_true (require-eq-ok (same_text url.protocol (codes "https:")) not_https https)
          (require-eq-ok (is_empty url.username && is_empty url.password) has_credentials plain))
        (and_true
          (require-eq-ok (is_empty url.port || same_text url.port (codes "443")) other_port port)
          (and_true
            (not-eq-false (is_forbidden_hostname hostname)
              (throw_if-eq-ok (is_forbidden_hostname hostname) forbidden_hostname allowed))
            asked)))

module _ {E A : Type 0} where
  Result-cases : (r : Result E A) → ((e : E) × (r ≡ err e)) ⊎ ((a : A) × (r ≡ ok a))
  Result-cases (err e) = inl (e, refl)
  Result-cases (ok a) = inr (a, refl)

Answer-cases :
    (a : Answer)
    → ((r : Result CalendarFetchError CalendarFetchResult) × (a ≡ ends r))
      ⊎ ((url : Text) × (a ≡ redirects url))
Answer-cases (ends r) = inl (r, refl)
Answer-cases (redirects url) = inr (url, refl)

-- A result that is no body, or a body within the limit.
abbrev pub is_limited : Result CalendarFetchError CalendarFetchResult → Bool
is_limited (ok (fetched body etag last_modified)) = leb (length body) max_calendar_bytes
is_limited _ = true

read_chunks-limited :
    (bytes : List ℕ) (chunks : List (List ℕ)) {body : List ℕ}
    → length bytes ≤ max_calendar_bytes
    → read_chunks (length bytes) bytes chunks ≡ ok body
    → length body ≤ max_calendar_bytes
unfolding read_chunks
read_chunks-limited bytes [] {body} short h =
    subst (λ (b : List ℕ). length b ≤ max_calendar_bytes) (ok_eq h) short
read_chunks-limited bytes (chunk ∷ chunks) {body} short h =
    let (u, fits, rest) =
      >>=-eq-ok (throw_if (ltb max_calendar_bytes (length bytes + length chunk)) too_large) _ h in
    let size = length-append bytes chunk in
    let within_limit =
      throw_if-eq-ok (ltb max_calendar_bytes (length bytes + length chunk)) too_large fits in
    read_chunks-limited (bytes ++ chunk) chunks (ground arith)
      (subst (λ (n : ℕ). read_chunks n (bytes ++ chunk) chunks ≡ ok body) (sym size) rest)

read_body-limited :
    (body : Option (List (List ℕ))) {bytes : List ℕ}
    → read_body body ≡ ok bytes
    → length bytes ≤ max_calendar_bytes
read_body-limited none h =
    subst (λ (b : List ℕ). length b ≤ max_calendar_bytes) (ok_eq h) (omega arith)
read_body-limited (some chunks) h = read_chunks-limited [] chunks (omega arith) h

read_limited_body-limited :
    (response : Response) {body : List ℕ}
    → read_limited_body response ≡ ok body
    → length body ≤ max_calendar_bytes
unfolding read_limited_body
read_limited_body-limited response h =
    let (u, declared, read) =
      >>=-eq-ok (throw_if (is_declared_large response.content_length) too_large) _ h in
    read_body-limited response.body read

limited-bind :
    {A : Type 0} (step : Result CalendarFetchError A)
    (rest : A → Result CalendarFetchError CalendarFetchResult)
    → ((a : A) → step ≡ ok a → is_limited (rest a) ≡ true)
    → is_limited (step >>= rest) ≡ true
limited-bind (err e) rest h = refl
limited-bind (ok a) rest h = h a refl

read_answer-is_limited : (response : Response) → is_limited (read_answer response) ≡ true
unfolding read_answer
read_answer-is_limited response =
    limited-bind
      (require (leb 200 response.status && leb response.status 299) (http_status response.status)) _
      (λ u h. limited-bind (throw_if (is_web_page response) web_page) _ (λ v k.
        limited-bind (read_limited_body response) _ (λ body b.
          leb-true (length body) max_calendar_bytes (read_limited_body-limited response b))))

abbrev is_limited_answer : Answer → Bool
is_limited_answer (ends result) = is_limited result
is_limited_answer (redirects url) = true

redirected-is_limited :
    (r : Result CalendarFetchError Text) → is_limited_answer (redirected r) ≡ true
redirected-is_limited (err e) = refl
redirected-is_limited (ok url) = refl

answer_of-is_limited :
    (net : Network) (left : ℕ) (safe : Url) (response : Option Response)
    → is_limited_answer (answer_of net left safe response) ≡ true
unfolding answer_of
answer_of-is_limited net left safe none = refl
answer_of-is_limited net left safe (some response) = elim (Bool-cases (response.status == 304)) [
  | inl e ↦ rw e refl
  | inr e ↦ elim (Bool-cases (is_redirect response.status)) [
    | inl r ↦ rw e (rw r (redirected-is_limited (follow net left response safe)))
    | inr r ↦ rw e (rw r (read_answer-is_limited response))
  ]
]

-- The requests and the result of at most `n` rounds.
abbrev pub IsGuarded :
    Network → ℕ → List Request × Result CalendarFetchError CalendarFetchResult → Type 0
IsGuarded net n (requests, result) =
    (all (is_guarded net) requests ≡ true) × (length requests ≤ n) × (is_limited result ≡ true)

fetch_rounds-IsGuarded :
    (net : Network) (round : ℕ) (current_url : Text) (left : ℕ)
    → IsGuarded net left (fetch_rounds net round current_url left)
unfolding fetch_rounds
fetch_rounds-IsGuarded net round current_url zero = (refl, omega arith, refl)
fetch_rounds-IsGuarded net round current_url (suc left) =
    elim (Result-cases (assert_safe_calendar_url net round current_url)) [
      | inl (reason, e) ↦ rw (e, fetch_rounds) (refl, omega arith, refl)
      | inr (safe, e) ↦
          let guarded = assert-is_guarded net round current_url e in
          elim (Answer-cases (answer_of net left safe (net.fetch round safe))) [
            | inl (result, a) ↦
                let limited : is_limited result ≡ true =
                  subst (λ (x : Answer). is_limited_answer x ≡ true) a
                    (answer_of-is_limited net left safe (net.fetch round safe)) in
                rw (e, a, fetch_rounds) (and_true guarded refl, omega arith, limited)
            | inr (url, a) ↦
                let (rest, few, limited) = fetch_rounds-IsGuarded net (suc round) url left in
                rw (e, a, fetch_rounds) (and_true guarded rest, omega arith, limited)
          ]
    ]

-- Whatever the network answers, fetchCalendar makes at most four requests; the URL of each, that of a
-- redirect included, is HTTPS on its standard port, without credentials and without a local name, and
-- the addresses of its host at that round are at least one and none of them blocked; and a body that
-- it returns has at most 2 MB.
pub fetch_calendar-IsGuarded :
    (net : Network) (raw_url : Text) → IsGuarded net 4 (fetch_calendar net raw_url)
unfolding fetch_calendar
fetch_calendar-IsGuarded net raw_url = fetch_rounds-IsGuarded net 0 raw_url 4
