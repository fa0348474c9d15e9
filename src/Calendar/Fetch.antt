-- ===== src/Calendar/Fetch.antt =====
-- lib/calendar/safeCalendarFetch.ts: which addresses and URLs a calendar may be fetched from, and the
-- loop over redirects. The URL parser, `isIP`, the resolver and the responses are arguments. Timeouts
-- are among the requests that fail.
pub mod Guarded
use hostrepository.Base.{
  ℕ, zero, suc, ◌+◌, ◌*◌, ◌-◌, Bool, true, false, not, ◌&&◌, ◌||◌, Option, none, some, List, [],
  ◌∷◌, ◌++◌, map, ◌==◌, leb, ltb, length, all, any, if◌then◌else◌,
}
use hostrepository.Base.Text.{
  Text, codes, drop, is_empty, same_text, starts_with, ends_with, to_lower_case, split_at_first,
}
use hostrepository.Base.Result.{Result, ok, err, ◌>>=◌, ◌>>◌, throw_if, require, or_throw}
use hostrepository.Calendar.Dates.{is_digit}
use hostrepository.Calendar.Addresses.{is_blocked_ipv4, is_blocked_ipv6}

-- `CalendarFetchError`, by its message; `invalid_location` is the `TypeError` of `new URL`.
pub data CalendarFetchError : Type 0 where
  invalid_url not_https has_credentials other_port forbidden_hostname : CalendarFetchError
  unresolved reserved_network too_large unreachable too_many_redirects : CalendarFetchError
  no_location invalid_location web_page : CalendarFetchError
  http_status : ℕ → CalendarFetchError

abbrev pub max_calendar_bytes : ℕ
max_calendar_bytes = 2097152

abbrev pub max_redirects : ℕ
max_redirects = 3

-- The parts of a `URL` that the code reads; `href` stands for the rest.
pub record Url : Type 0 where
  pub protocol : Text
  pub username : Text
  pub password : Text
  pub port : Text
  pub hostname : Text
  pub href : Text

pub record Response : Type 0 where
  pub status : ℕ
  pub etag : Option Text
  pub last_modified : Option Text
  pub location : Option Text
  pub content_type : Option Text
  -- `Number` of the header where it is finite.
  pub content_length : Option ℕ
  -- The chunks of bytes of the body, where there is one.
  pub body : Option (List (List ℕ))

-- What `node:net`, the URL parser and the network answer. A resolver may answer differently at each
-- round, and fail (`none`).
pub record Network : Type 0 where
  pub is_ip : Text → ℕ
  pub parse_url : Text → Option Url
  -- `new URL(location, base).toString()`
  pub resolve_url : Text → Url → Option Text
  pub resolver : ℕ → Text → Option (List Text)
  pub fetch : ℕ → Url → Option Response

-- `.replace(/…$/, "")` of one code unit.
unfoldable pub without_last : ℕ → Text → Text
without_last c [] = []
without_last c (d ∷ s) =
    let rest = without_last c s in if is_empty s && d == c then [] else d ∷ rest

abbrev pub without_first : ℕ → Text → Text
without_first c [] = []
without_first c (d ∷ s) = if d == c then s else d ∷ s

-- `normalizeHostname`; the code units are those of `[`, `]` and `.`.
unfoldable pub normalize_hostname : Text → Text
normalize_hostname hostname =
    without_last 46 (without_last 93 (without_first 91 (to_lower_case hostname)))

abbrev pub is_forbidden_hostname : Text → Bool
is_forbidden_hostname hostname =
    is_empty hostname
    || same_text hostname (codes "localhost")
    || ends_with hostname (codes ".localhost")
    || ends_with hostname (codes ".local")
    || ends_with hostname (codes ".internal")
    || ends_with hostname (codes ".lan")

module _ (net : Network) where
  unfoldable pub is_blocked_network_address : Text → Bool
  is_blocked_network_address address =
      if net.is_ip address == 4
      then is_blocked_ipv4 address
      else if net.is_ip address == 6
      then is_blocked_ipv6 address
      else true

  -- The addresses of a hostname: itself, or what the resolver gives.
  unfoldable pub addresses_of : ℕ → Text → Option (List Text)
  addresses_of round hostname =
      if net.is_ip hostname == 0 then net.resolver round hostname else some (hostname ∷ [])

  -- `assertSafeCalendarUrl`, at a round.
  unfoldable pub assert_safe_calendar_url : ℕ → Text → Result CalendarFetchError Url
  assert_safe_calendar_url round raw_url = do
    url ← or_throw (net.parse_url raw_url) invalid_url
    require (same_text url.protocol (codes "https:")) not_https
    require (is_empty url.username && is_empty url.password) has_credentials
    require (is_empty url.port || same_text url.port (codes "443")) other_port
    let hostname = normalize_hostname url.hostname
    throw_if (is_forbidden_hostname hostname) forbidden_hostname
    addresses ← or_throw (addresses_of round hostname) unresolved
    throw_if (length addresses == 0) unresolved
    throw_if (any is_blocked_network_address addresses) reserved_network
    ok url

-- The loop of `readLimitedBody`, with the bytes so far and their number.
unfoldable pub read_chunks : ℕ → List ℕ → List (List ℕ) → Result CalendarFetchError (List ℕ)
read_chunks total bytes [] = ok bytes
read_chunks total bytes (chunk ∷ chunks) =
    throw_if (ltb max_calendar_bytes (total + length chunk)) too_large >>= λ read.
    read_chunks (total + length chunk) (bytes ++ chunk) chunks

abbrev pub is_declared_large : Option ℕ → Bool
is_declared_large none = false
is_declared_large (some n) = ltb max_calendar_bytes n

abbrev pub read_body : Option (List (List ℕ)) → Result CalendarFetchError (List ℕ)
read_body none = ok []
read_body (some chunks) = read_chunks 0 [] chunks

-- `readLimitedBody` up to its last call, which decodes the bytes: the limit is on the bytes received.
-- The text that `toString` makes of them is left out; it can be longer where they are no UTF-8.
unfoldable pub read_limited_body : Response → Result CalendarFetchError (List ℕ)
read_limited_body response = do
  throw_if (is_declared_large response.content_length) too_large
  read_body response.body

abbrev pub is_redirect : ℕ → Bool
is_redirect status =
    status == 301 || status == 302 || status == 303 || status == 307 || status == 308

-- `haystack.includes(needle)`
unfoldable pub includes : Text → Text → Bool
includes [] needle = is_empty needle
includes (c ∷ s) needle = starts_with (c ∷ s) needle || includes s needle

abbrev pub or_no_text : Option Text → Text
or_no_text none = []
or_no_text (some s) = s

abbrev pub is_web_page : Response → Bool
is_web_page response =
    let content_type = to_lower_case (or_no_text response.content_type) in
    includes content_type (codes "text/html") || includes content_type (codes "application/xhtml")

-- The body is the bytes received, which the code decodes.
pub data CalendarFetchResult : Type 0 where
  not_modified : Option Text → Option Text → CalendarFetchResult
  fetched : List ℕ → Option Text → Option Text → CalendarFetchResult

-- The end of the loop's body, for an answer that is neither 304 nor a redirect.
unfoldable pub read_answer : Response → Result CalendarFetchError CalendarFetchResult
read_answer response = do
  require (leb 200 response.status && leb response.status 299) (http_status response.status)
  throw_if (is_web_page response) web_page
  body ← read_limited_body response
  ok (fetched body response.etag response.last_modified)

-- What an answer does to the loop.
pub data Answer : Type 0 where
  ends : Result CalendarFetchError CalendarFetchResult → Answer
  redirects : Text → Answer

abbrev pub redirected : Result CalendarFetchError Text → Answer
redirected (err reason) = ends (err reason)
redirected (ok next_url) = redirects next_url

-- A request: its round and its URL.
abbrev pub Request : Type 0
Request = ℕ × Url

module _ (net : Network) where
  -- Where a redirect leads; `left`: how many more redirects are followed.
  unfoldable pub follow : ℕ → Response → Url → Result CalendarFetchError Text
  follow left response safe_url = do
    throw_if (left == 0) too_many_redirects
    location ← or_throw response.location no_location
    throw_if (is_empty location) no_location
    or_throw (net.resolve_url location safe_url) invalid_location

  unfoldable pub answer_of : ℕ → Url → Option Response → Answer
  answer_of left safe_url none = ends (err unreachable)
  answer_of left safe_url (some response) =
      if response.status == 304
      then ends (ok (not_modified response.etag response.last_modified))
      else if is_redirect response.status
      then redirected (follow left response safe_url)
      else ends (read_answer response)

  -- The rounds of the loop: what was requested, in order, and how it ended. The fuel is one more than
  -- the redirects that are left.
  unfoldable pub fetch_rounds :
      ℕ → Text → ℕ → List Request × Result CalendarFetchError CalendarFetchResult
  fetch_rounds round current_url zero = ([], err too_many_redirects)
  fetch_rounds round current_url (suc left) =
      elim (assert_safe_calendar_url net round current_url) [
        | err reason ↦ ([], err reason)
        | ok safe_url ↦ elim (answer_of left safe_url (net.fetch round safe_url)) [
          | ends result ↦ ((round, safe_url) ∷ [], result)
          | redirects next_url ↦
              let (requests, result) = fetch_rounds (suc round) next_url left in
              ((round, safe_url) ∷ requests, result)
        ]
      ]

  unfoldable pub fetch_calendar :
      Text → List Request × Result CalendarFetchError CalendarFetchResult
  fetch_calendar raw_url = fetch_rounds 0 raw_url (suc max_redirects)
