-- ===== src/Base/Lists.antt =====
-- Lists as the rows of a table: queries, updates and what they keep.
use Prim.Native.Nat.{ℕ, zero, suc, ◌+◌}
use mathlib.Core.Path.{◌≡◌, refl, sym, ap}
use mathlib.Core.Logic.{◌⊎◌, inl, inr}
use mathlib.Core.Bool.{Bool, true, false, ◌&&◌, ◌||◌}
use mathlib.Core.Option.{Option, none, some}
use mathlib.Core.List.{List, [], ◌∷◌, ◌++◌, map}
use native.Mathlib.Omega.{arith}
use hostrepository.Base.Tests.{if◌then◌else◌, Bool-cases, and_left, and_right, and_true}

module _ {ℓ} {A : Type ℓ} where
  abbrev pub length : List A → ℕ
  length [] = 0
  length (x ∷ xs) = suc (length xs)

  -- `SELECT … WHERE` with one row wanted, and JavaScript's `find`.
  abbrev pub find? : (A → Bool) → List A → Option A
  find? p [] = none
  find? p (x ∷ xs) = if p x then some x else find? p xs

  -- `SELECT … WHERE`, and JavaScript's `filter`.
  abbrev pub filter : (A → Bool) → List A → List A
  filter p [] = []
  filter p (x ∷ xs) = if p x then x ∷ filter p xs else filter p xs

  -- `EXISTS (SELECT …)`.
  abbrev pub any : (A → Bool) → List A → Bool
  any p [] = false
  any p (x ∷ xs) = p x || any p xs

  -- JavaScript's `every`.
  abbrev pub all : (A → Bool) → List A → Bool
  all p [] = true
  all p (x ∷ xs) = p x && all p xs

  -- `UPDATE … SET f WHERE p`.
  abbrev pub update_where : (A → Bool) → (A → A) → List A → List A
  update_where p f [] = []
  update_where p f (x ∷ xs) = (if p x then f x else x) ∷ update_where p f xs

pub or-true : (b : Bool) → (b || true) ≡ true
or-true true = refl
or-true false = refl

module _ {A : Type 0} where
  abbrev pub take : ℕ → List A → List A
  take zero xs = []
  take (suc n) [] = []
  take (suc n) (x ∷ xs) = x ∷ take n xs

  -- Membership with the place kept.
  abbrev pub In : A → List A → Type 0
  In x [] = ⊥
  In x (y ∷ ys) = (x ≡ y) ⊎ In x ys

  pub find?-In : (p : A → Bool) (xs : List A) {x : A} → find? p xs ≡ some x → In x xs × (p x ≡ true)
  find?-In p (y ∷ ys) {x} e = elim (Bool-cases (p y)) [
    | inl hit ↦ let same : y ≡ x = ground arith in (inl (sym same), ground arith)
    | inr miss ↦ let (i, h) = find?-In p ys {x = x} (ground arith) in (inr i, h)
  ]
  find?-In p [] e = ground arith

  -- A row after an update is a row before it, changed where the test holds.
  pub In-update_where :
      (p : A → Bool) (f : A → A) (xs : List A) {y : A}
      → In y (update_where p f xs)
      → (x : A) × In x xs × (y ≡ (if p x then f x else x))
  In-update_where p f (x ∷ xs) (inl e) = (x, inl refl, e)
  In-update_where p f (x ∷ xs) (inr i) = let (w, j, e) = In-update_where p f xs i in (w, inr j, e)
  In-update_where p f [] i = absurd i

  pub In-append : (x : A) (xs ys : List A) → In x (xs ++ ys) → In x xs ⊎ In x ys
  In-append x [] ys i = inr i
  In-append x (y ∷ xs) ys (inl e) = inl (inl e)
  In-append x (y ∷ xs) ys (inr i) = elim (In-append x xs ys i) [
    | inl j ↦ inl (inr j)
    | inr j ↦ inr j
  ]

  pub filter-In : (p : A → Bool) (x : A) (xs : List A) → In x xs → p x ≡ true → In x (filter p xs)
  filter-In p x [] i h = absurd i
  filter-In p x (y ∷ ys) (inl same) h = rw (← same, h) (inl refl)
  filter-In p x (y ∷ ys) (inr i) h = elim (Bool-cases (p y)) [
    | inl hit ↦ rw hit (inr (filter-In p x ys i h))
    | inr miss ↦ rw miss (filter-In p x ys i h)
  ]

  pub In-any : (p : A → Bool) (x : A) (xs : List A) → In x xs → p x ≡ true → any p xs ≡ true
  In-any p x [] i h = absurd i
  In-any p x (y ∷ ys) (inl e) h = let hit : p y ≡ true = rw e at h in rw hit
  In-any p x (y ∷ ys) (inr i) h = rw (In-any p x ys i h) (or-true (p y))

  pub In-update :
      (p : A → Bool) (f : A → A) (x : A) (xs : List A)
      → In x xs
      → In (if p x then f x else x) (update_where p f xs)
  In-update p f x [] i = absurd i
  In-update p f x (y ∷ ys) (inl e) = inl (rw e refl)
  In-update p f x (y ∷ ys) (inr i) = inr (In-update p f x ys i)

  pub any-update_where :
      (p test : A → Bool) (f : A → A) (xs : List A)
      → ((x : A) → p x ≡ true → p (if test x then f x else x) ≡ true)
      → any p xs ≡ true
      → any p (update_where test f xs) ≡ true
  any-update_where p test f [] keep h = h
  any-update_where p test f (x ∷ xs) keep h =
      ground (arith, keep x, any-update_where p test f xs keep)

  pub none-update_where :
      (p test : A → Bool) (f : A → A) (xs : List A)
      → ((x : A) → p x ≡ false → p (if test x then f x else x) ≡ false)
      → any p xs ≡ false
      → any p (update_where test f xs) ≡ false
  none-update_where p test f [] keep h = h
  none-update_where p test f (x ∷ xs) keep h =
      ground (arith, keep x, none-update_where p test f xs keep)

  pub In-append_right : (x : A) (xs ys : List A) → In x ys → In x (xs ++ ys)
  In-append_right x [] ys i = i
  In-append_right x (y ∷ xs) ys i = inr (In-append_right x xs ys i)

module _ {A : Type 0} (p : A → Bool) (x : A) (xs : List A) (h : all p (x ∷ xs) ≡ true) where
  pub all_first : p x ≡ true
  all_first = and_left (p x) (all p xs) h

  pub all_rest : all p xs ≡ true
  all_rest = and_right (p x) (all p xs) h

pub all-append :
    {A : Type 0} (p : A → Bool) (xs ys : List A)
    → all p xs ≡ true
    → all p ys ≡ true
    → all p (xs ++ ys) ≡ true
all-append p [] ys h k = k
all-append p (x ∷ xs) ys h k =
    and_true (and_left (p x) (all p xs) h) (all-append p xs ys (and_right (p x) (all p xs) h) k)

pub length-append : {A : Type 0} (xs ys : List A) → length (xs ++ ys) ≡ length xs + length ys
length-append [] ys = omega arith
length-append (x ∷ xs) ys = omega (arith, length-append xs ys)

pub length-map : {A B : Type 0} (f : A → B) (xs : List A) → length (map f xs) ≡ length xs
length-map f [] = refl
length-map f (x ∷ xs) = ap suc (length-map f xs)

pub In-map : {A B : Type 0} (f : A → B) (x : A) (xs : List A) → In x xs → In (f x) (map f xs)
In-map f x [] i = absurd i
In-map f x (y ∷ ys) (inl e) = inl (ap f e)
In-map f x (y ∷ ys) (inr i) = inr (In-map f x ys i)
