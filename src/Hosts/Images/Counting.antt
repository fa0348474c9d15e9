-- ===== src/Hosts/Images/Counting.antt =====
-- Counting images before and after the rows change.
use hostrepository.Base.{
  ℕ, suc, ◌+◌, ◌≤◌, ◌≡◌, refl, sym, ap, ◌∙◌, Bool, true, false, not, ◌&&◌, ◌||◌, Bool-cases, inl,
  inr, List, [], ◌∷◌, filter, In, update_where, if◌then◌else◌, arith,
}
use hostrepository.Hosts.Images.{PropertyImage, count}

pub count-update_where :
    (test p : PropertyImage → Bool) (f : PropertyImage → PropertyImage)
    (images : List PropertyImage)
    → count test (update_where p f images)
      ≡ count (λ (x : PropertyImage). test (if p x then f x else x)) images
unfolding count
count-update_where test p f [] = refl
count-update_where test p f (x ∷ images) =
    ap (λ (n : ℕ). if test (if p x then f x else x) then suc n else n)
      (count-update_where test p f images)

pub count-filter :
    (test p : PropertyImage → Bool) (images : List PropertyImage)
    → count test (filter p images) ≡ count (λ (x : PropertyImage). p x && test x) images
unfolding count
count-filter test p [] = refl
count-filter test p (x ∷ images) =
    let ih = count-filter test p images in
    elim (Bool-cases (p x)) [
      | inl e ↦ rw e (ap (λ (n : ℕ). if test x then suc n else n) ih)
      | inr e ↦ rw e ih
    ]

pub count_same :
    (test other : PropertyImage → Bool) (images : List PropertyImage)
    → ((x : PropertyImage) → test x ≡ other x)
    → count test images ≡ count other images
unfolding count
count_same test other [] same = refl
count_same test other (x ∷ images) same = rw (same x, count_same test other images same) refl

pub count_less :
    (test other : PropertyImage → Bool) (images : List PropertyImage)
    → ((x : PropertyImage) → test x ≡ true → other x ≡ true)
    → count test images ≤ count other images
unfolding count
count_less test other [] less = omega arith
count_less test other (x ∷ images) less =
    let ih = count_less test other images less in ground (arith, less x)

-- Either test, or both.
pub count_either :
    (test other : PropertyImage → Bool) (images : List PropertyImage)
    → count (λ (x : PropertyImage). test x || other x) images
        + count (λ (x : PropertyImage). test x && other x) images
      ≡ count test images + count other images
unfolding count
count_either test other [] = refl
count_either test other (x ∷ images) = let ih = count_either test other images in ground arith

pub count-In :
    (test : PropertyImage → Bool) (x : PropertyImage) (images : List PropertyImage)
    → In x images
    → test x ≡ true
    → 1 ≤ count test images
unfolding count
count-In test x [] i h = absurd i
count-In test x (y ∷ images) (inl same) h =
    let here : test y ≡ true = ap test (sym same) ∙ h in ground arith
count-In test x (y ∷ images) (inr i) h = let ih = count-In test x images i h in ground arith

-- With and without another test.
pub count_split :
    (part test : PropertyImage → Bool) (images : List PropertyImage)
    → count test images
      ≡ count (λ (x : PropertyImage). not (part x) && test x) images
        + count (λ (x : PropertyImage). part x && test x) images
unfolding count
count_split part test [] = refl
count_split part test (x ∷ images) = let ih = count_split part test images in ground arith

pub count_none : (images : List PropertyImage) → count (λ (x : PropertyImage). false) images ≡ 0
unfolding count
count_none [] = refl
count_none (x ∷ images) = count_none images
