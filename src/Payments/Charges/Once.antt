-- ===== src/Payments/Charges/Once.antt =====
-- At most one live attempt of a booking, its latest: what both transactions of a charge keep.
use hostrepository.Base.{
  ℕ, ◌+◌, ◌≡◌, ◌≢◌, ◌<◌, ◌≤◌, refl, sym, subst, ap, ◌∙◌, Bool, true, false, ◌⊎◌, inl, inr, Option,
  none, some, List, [], ◌∷◌, leb, if◌then◌else◌, update_where, In, In-update_where, Bool-cases,
  arith,
}
use hostrepository.Store.{Attempt, AttemptStatus, pending, processing, requires_action, succeeded}
use hostrepository.Payments.Charges.{of_booking, latest_attempt, later_attempt, max_attempt}

-- An attempt that may still succeed, or did.
abbrev pub is_live : AttemptStatus → Bool
is_live pending = true
is_live processing = true
is_live requires_action = true
is_live succeeded = true
is_live _ = false

abbrev pub has_token : Attempt → Bool
has_token a = elim a.claim_token [ none ↦ false | some _ ↦ true ]

-- A live attempt comes after every other of its booking.
abbrev pub IsLast : List Attempt → Type 0
IsLast attempts =
    (a b : Attempt)
    → In a attempts
    → In b attempts
    → a.booking_id ≡ b.booking_id
    → is_live a.status ≡ true
    → (a ≡ b) ⊎ (b.attempt_number < a.attempt_number)

-- Only a live attempt is claimed.
abbrev pub IsHeld : List Attempt → Type 0
IsHeld attempts = (a : Attempt) → In a attempts → has_token a ≡ true → is_live a.status ≡ true

-- The identifier is the table's primary key.
abbrev pub IsKeyed : List Attempt → Type 0
IsKeyed attempts = (a b : Attempt) → In a attempts → In b attempts → a.id ≡ b.id → a ≡ b

abbrev pub IsSound : List Attempt → Type 0
IsSound attempts = IsLast attempts × IsHeld attempts × IsKeyed attempts

pub attempt_bound :
    (id : ℕ) (attempts : List Attempt) (b : Attempt)
    → In b attempts
    → b.booking_id ≡ id
    → b.attempt_number ≤ max_attempt id attempts
unfolding max_attempt
attempt_bound id [] b i h = absurd i
attempt_bound id (a ∷ attempts) b (inl same) h =
    let ours : of_booking id a ≡ true = rw (← same) (ground arith) in rw (ours, same) (omega arith)
attempt_bound id (a ∷ attempts) b (inr i) h = ground (arith, attempt_bound id attempts b i h)

-- What the query for the latest attempt gives.
abbrev pub IsLatest : ℕ → List Attempt → Option Attempt → Type 0
IsLatest id attempts none = (b : Attempt) → In b attempts → b.booking_id ≢ id
IsLatest id attempts (some l) =
    In l attempts
    × (l.booking_id ≡ id)
    × ((b : Attempt) → In b attempts → b.booking_id ≡ id → b.attempt_number ≤ l.attempt_number)

later_cases :
    (a l : Attempt)
    → ((later_attempt a (some l) ≡ a) × (l.attempt_number ≤ a.attempt_number))
      ⊎ ((later_attempt a (some l) ≡ l) × (a.attempt_number ≤ l.attempt_number))
later_cases a l = elim (Bool-cases (leb l.attempt_number a.attempt_number)) [
  | inl newer ↦ inl (rw newer refl, ground arith)
  | inr older ↦ inr (rw older refl, ground arith)
]

pub latest_attempt-IsLatest :
    (id : ℕ) (attempts : List Attempt) → IsLatest id attempts (latest_attempt id attempts)
unfolding latest_attempt
latest_attempt-IsLatest id [] = λ b i h. absurd i
latest_attempt-IsLatest id (a ∷ attempts) = elim (Bool-cases (of_booking id a)) [
  | inl ours ↦
      rw ours
        (first (latest_attempt id attempts) (latest_attempt-IsLatest id attempts) (ground arith))
  | inr other ↦
      rw other
        (skipped (latest_attempt id attempts) (latest_attempt-IsLatest id attempts) (ground arith))
]
  where
    first :
        (o : Option Attempt)
        → IsLatest id attempts o
        → a.booking_id ≡ id
        → IsLatest id (a ∷ attempts) (some (later_attempt a o))
    first none l ours =
        (inl refl, ours, λ b i h. elim i [ inl e ↦ rw e (omega arith) | inr j ↦ absurd (l b j h) ])
    first (some l) (i, same, top) ours = picked (later_attempt a (some l)) (later_cases a l)
      where
        picked :
            (m : Attempt)
            → ((m ≡ a) × (l.attempt_number ≤ a.attempt_number))
              ⊎ ((m ≡ l) × (a.attempt_number ≤ l.attempt_number))
            → IsLatest id (a ∷ attempts) (some m)
        picked m (inl (e, le)) = rw e (
          inl refl,
          ours,
          λ b j h. elim j [
            | inl f ↦ rw f (omega arith)
            | inr k ↦ let below = top b k h in omega arith
          ],
        )
        picked m (inr (e, le)) =
            let here = subst (λ (x : Attempt). In x attempts) (sym e) i in
            rw e (inr here, same, λ b j h. elim j [ inl f ↦ rw f le | inr k ↦ top b k h ])

    skipped :
        (o : Option Attempt)
        → IsLatest id attempts o
        → a.booking_id ≢ id
        → IsLatest id (a ∷ attempts) o
    skipped none l other = λ b i h. elim i [
      | inl e ↦ other (ap (λ (x : Attempt). x.booking_id) (sym e) ∙ h)
      | inr j ↦ l b j h
    ]
    skipped (some l) (i, same, top) other = (
      inr i,
      same,
      λ b j h. elim j [
        | inl e ↦ absurd (other (ap (λ (x : Attempt). x.booking_id) (sym e) ∙ h))
        | inr k ↦ top b k h
      ],
    )

-- Updating rows that are live, without a change of their keys, keeps the table sound.
pub update-IsSound :
    (test : Attempt → Bool) (change : Attempt → Attempt) (attempts : List Attempt)
    → ((a : Attempt)
        → ((change a).id ≡ a.id)
          × ((change a).booking_id ≡ a.booking_id)
          × ((change a).attempt_number ≡ a.attempt_number))
    → ((a : Attempt) → In a attempts → test a ≡ true → is_live a.status ≡ true)
    → ((a : Attempt)
        → In a attempts
        → test a ≡ true
        → has_token (change a) ≡ true
        → is_live (change a).status ≡ true)
    → IsSound attempts
    → IsSound (update_where test change attempts)
update-IsSound test change attempts keys live held (last, tokens, keyed) = (lasts, helds, keyeds)
  where
    changed : Attempt → Attempt
    changed a = if test a then change a else a

    same_keys :
        (a : Attempt)
        → ((changed a).id ≡ a.id)
          × ((changed a).booking_id ≡ a.booking_id)
          × ((changed a).attempt_number ≡ a.attempt_number)
    same_keys a = elim (Bool-cases (test a)) [
      | inl hit ↦ rw hit (keys a)
      | inr miss ↦ rw miss (refl, refl, refl)
    ]

    was_live :
        (a : Attempt) → In a attempts → is_live (changed a).status ≡ true → is_live a.status ≡ true
    was_live a i h = elim (Bool-cases (test a)) [ inl hit ↦ live a i hit | inr miss ↦ rw miss at h ]

    lasts : IsLast (update_where test change attempts)
    lasts a b i j same h =
        let (x, ix, ex) = In-update_where test change attempts i in
        let (y, jy, ey) = In-update_where test change attempts j in
        let (_, book_x, num_x) = same_keys x in
        let (_, book_y, num_y) = same_keys y in
        let one_booking : x.booking_id ≡ y.booking_id = sym book_x ∙ rw (ex, ey) at same ∙ book_y in
        elim (last x y ix jy one_booking (was_live x ix (rw ex at h))) [
          | inl e ↦ inl (ex ∙ ap changed e ∙ sym ey)
          | inr less ↦ inr (rw (ex, ey, num_x, num_y) less)
        ]

    helds : IsHeld (update_where test change attempts)
    helds a i h =
        let (x, ix, ex) = In-update_where test change attempts i in
        rw ex (held_changed x ix (rw ex at h))
      where
        held_changed :
            (x : Attempt)
            → In x attempts
            → has_token (changed x) ≡ true
            → is_live (changed x).status ≡ true
        held_changed x ix k = elim (Bool-cases (test x)) [
          | inl hit ↦ rw hit (held x ix hit (rw hit at k))
          | inr miss ↦ rw miss (tokens x ix (rw miss at k))
        ]

    keyeds : IsKeyed (update_where test change attempts)
    keyeds a b i j same =
        let (x, ix, ex) = In-update_where test change attempts i in
        let (y, jy, ey) = In-update_where test change attempts j in
        let (id_x, _, _) = same_keys x in
        let (id_y, _, _) = same_keys y in
        ex ∙ ap changed (keyed x y ix jy (sym id_x ∙ rw (ex, ey) at same ∙ id_y)) ∙ sym ey

-- A new attempt with the next number keeps the table sound, if no other of the booking is live.
pub insert-IsSound :
    (n : Attempt) (attempts : List Attempt)
    → n.attempt_number ≡ max_attempt n.booking_id attempts + 1
    → is_live n.status ≡ true
    → ((b : Attempt) → In b attempts → b.id ≢ n.id)
    → ((b : Attempt) → In b attempts → b.booking_id ≡ n.booking_id → is_live b.status ≡ false)
    → IsSound attempts
    → IsSound (n ∷ attempts)
insert-IsSound n attempts number live fresh closed (last, tokens, keyed) = (lasts, helds, keyeds)
  where
    lasts : IsLast (n ∷ attempts)
    lasts a b (inl e) (inl f) same h = inl (e ∙ sym f)
    lasts a b (inl e) (inr j) same h =
        let below =
          attempt_bound n.booking_id attempts b j
            (sym same ∙ ap (λ (x : Attempt). x.booking_id) e) in
        inr (rw (e, number) (omega arith))
    lasts a b (inr i) (inl f) same h =
        let shut = closed a i (same ∙ ap (λ (x : Attempt). x.booking_id) f) in cc
    lasts a b (inr i) (inr j) same h = last a b i j same h

    helds : IsHeld (n ∷ attempts)
    helds a (inl e) h = rw e live
    helds a (inr i) h = tokens a i h

    keyeds : IsKeyed (n ∷ attempts)
    keyeds a b (inl e) (inl f) same = e ∙ sym f
    keyeds a b (inl e) (inr j) same = absurd (fresh b j (sym same ∙ ap (λ (x : Attempt). x.id) e))
    keyeds a b (inr i) (inl f) same = absurd (fresh a i (same ∙ ap (λ (x : Attempt). x.id) f))
    keyeds a b (inr i) (inr j) same = keyed a b i j same
