-- ===== src/Hosts/Images/Promoting.antt =====
-- The cover that follows a deleted one.
use hostrepository.Base.{
  ℕ, ◌+◌, ◌≤◌, ◌≡◌, refl, sym, ap, ◌∙◌, subst, Bool, true, false, not, ◌&&◌, ◌||◌, Bool-cases,
  Option-cases, inl, inr, List, [], ◌∷◌, ◌==◌, In, update_where, if◌then◌else◌, arith, none, some,
}
use hostrepository.Store.{Env}
use hostrepository.Hosts.Images.{
  PropertyImage, count, of_property, has_id, set_cover, comes_before, first_image, promote_first,
}
use hostrepository.Hosts.Images.Counting.{
  count-update_where, count_same, count_less, count_either, count_split, count-In,
}
use hostrepository.Hosts.Images.Covered.{is_cover_of, one_of, IsCovered}

pub first_image-In :
    (p : ℕ) (images : List PropertyImage) {first : PropertyImage}
    → first_image p images ≡ some first
    → In first images × (of_property p first ≡ true)
unfolding first_image
first_image-In p [] h = absurd (ground arith)
first_image-In p (image ∷ images) {first} h = elim (Bool-cases (of_property p image)) [
  | inr e ↦ let (i, o) = first_image-In p images {first = first} (rw e at h) in (inr i, o)
  | inl e ↦ elim (Option-cases (first_image p images)) [
    | inl n ↦
        let here : image ≡ first = ground arith in
        (inl (sym here), subst (λ (x : PropertyImage). of_property p x ≡ true) here e)
    | inr (other, o) ↦
        let (i, k) = first_image-In p images o in
        elim (Bool-cases (comes_before image other)) [
          | inl b ↦
              let here : image ≡ first = ground arith in
              (inl (sym here), subst (λ (x : PropertyImage). of_property p x ≡ true) here e)
          | inr b ↦
              let there : other ≡ first = ground arith in
              (
                inr (subst (λ (x : PropertyImage). In x images) there i),
                subst (λ (x : PropertyImage). of_property p x ≡ true) there k,
              )
        ]
  ]
]

pub no_first_image :
    (p : ℕ) (images : List PropertyImage)
    → first_image p images ≡ none
    → count (of_property p) images ≡ 0
unfolding first_image count
no_first_image p [] h = refl
no_first_image p (image ∷ images) h = ground (arith, no_first_image p images)

-- A property whose images have no cover gets one, and no other property changes.
module _ (env : Env) (p : ℕ) (images : List PropertyImage) (bare : count (is_cover_of p) images ≡ 0)
    (unique : (id : ℕ) → count (has_id id) images ≤ 1) where
  abbrev marked : ℕ → PropertyImage → PropertyImage
  marked id x = if has_id id x then set_cover env true x else x

  marked_property : (id q : ℕ) (x : PropertyImage) → of_property q (marked id x) ≡ of_property q x
  marked_property id q x = ground arith

  marked_id : (id other : ℕ) (x : PropertyImage) → has_id other (marked id x) ≡ has_id other x
  marked_id id other x = ground arith

  marked_cover :
      (id q : ℕ) (x : PropertyImage)
      → is_cover_of q (marked id x) ≡ ((of_property q x && has_id id x) || is_cover_of q x)
  marked_cover id q x = ground arith

  module _ (first : PropertyImage) (listed : In first images)
      (mine : of_property p first ≡ true) where
    one_first : count (λ (x : PropertyImage). of_property p x && has_id first.id x) images ≡ 1
    one_first =
        let least =
          count-In (λ (x : PropertyImage). of_property p x && has_id first.id x) first images listed
            (ground arith) in
        let most =
          count_less (λ (x : PropertyImage). of_property p x && has_id first.id x) (has_id first.id)
            images (λ x. ground arith) in
        let once = unique first.id in omega arith

    none_other :
        (q : ℕ)
        → (p == q) ≡ false
        → count (λ (x : PropertyImage). of_property q x && has_id first.id x) images ≡ 0
    none_other q other =
        let one = one_first in
        let split = count_split (of_property p) (has_id first.id) images in
        let inside =
          count_less (λ (x : PropertyImage). of_property q x && has_id first.id x)
            (λ (x : PropertyImage). not (of_property p x) && has_id first.id x) images
            (λ x. ground arith) in
        let once = unique first.id in omega arith

    covers_after :
        (q : ℕ)
        → count (is_cover_of q) (update_where (has_id first.id) (set_cover env true) images)
            + count
                (λ (x : PropertyImage). (of_property q x && has_id first.id x) && is_cover_of q x)
                images
          ≡ count (λ (x : PropertyImage). of_property q x && has_id first.id x) images
            + count (is_cover_of q) images
    covers_after q =
        ap
          (λ (n : ℕ).
            n
            + count
                (λ (x : PropertyImage). (of_property q x && has_id first.id x) && is_cover_of q x)
                images)
          (count-update_where (is_cover_of q) (has_id first.id) (set_cover env true) images
            ∙ count_same (λ (x : PropertyImage). is_cover_of q (marked first.id x))
                (λ (x : PropertyImage). (of_property q x && has_id first.id x) || is_cover_of q x)
                images (marked_cover first.id q))
        ∙ count_either (λ (x : PropertyImage). of_property q x && has_id first.id x) (is_cover_of q)
            images

    pub same_images :
        (q : ℕ)
        → count (of_property q) (update_where (has_id first.id) (set_cover env true) images)
          ≡ count (of_property q) images
    same_images q =
        count-update_where (of_property q) (has_id first.id) (set_cover env true) images
        ∙ count_same (λ (x : PropertyImage). of_property q (marked first.id x)) (of_property q)
            images (marked_property first.id q)

    both_less :
        (q : ℕ) (other : PropertyImage → Bool)
        → ((x : PropertyImage)
            → ((of_property q x && has_id first.id x) && is_cover_of q x) ≡ true
            → other x ≡ true)
        → count
            (λ (x : PropertyImage). (of_property q x && has_id first.id x) && is_cover_of q x)
            images
          ≤ count other images
    both_less q other less =
        count_less
          (λ (x : PropertyImage). (of_property q x && has_id first.id x) && is_cover_of q x) other
          images less

    pub covered_again :
        count (is_cover_of p) (update_where (has_id first.id) (set_cover env true) images) ≡ 1
    covered_again =
        let sum = covers_after p in
        let one = one_first in
        let both = both_less p (is_cover_of p) (λ x. ground arith) in omega arith

    pub others_same :
        (q : ℕ)
        → (p == q) ≡ false
        → count (is_cover_of q) (update_where (has_id first.id) (set_cover env true) images)
          ≡ count (is_cover_of q) images
    others_same q other =
        let sum = covers_after q in
        let nothing = none_other q other in
        let both =
          both_less q (λ (x : PropertyImage). of_property q x && has_id first.id x)
            (λ x. ground arith) in
        omega arith

marked_unique :
    (env : Env) (id : ℕ) (images : List PropertyImage)
    → ((other : ℕ) → count (has_id other) images ≤ 1)
    → (other : ℕ) → count (has_id other) (update_where (has_id id) (set_cover env true) images) ≤ 1
marked_unique env id images unique other =
    subst (λ (n : ℕ). n ≤ 1)
      (sym (
        count-update_where (has_id other) (has_id id) (set_cover env true) images
        ∙ count_same
            (λ (x : PropertyImage). has_id other (if has_id id x then set_cover env true x else x))
            (has_id other) images (λ x. ground arith)))
      (unique other)

pub promote_first-IsCovered :
    (env : Env) (p : ℕ) (images : List PropertyImage)
    → count (is_cover_of p) images ≡ 0
    → ((q : ℕ)
        → (p == q) ≡ false
        → count (is_cover_of q) images ≡ one_of (count (of_property q) images))
    → ((id : ℕ) → count (has_id id) images ≤ 1)
    → ((q : ℕ) → count (of_property q) images ≤ 30)
    → IsCovered (promote_first env p images)
unfolding promote_first
promote_first-IsCovered env p images bare covered unique few =
    elim (Option-cases (first_image p images)) [
      | inl none_left ↦
          rw (none_left, promote_first)
            (record {
              covers = λ q. elim (Bool-cases (p == q)) [
                | inl e ↦
                    let here : p ≡ q = ground arith in
                    subst
                      (λ (r : ℕ).
                        count (is_cover_of r) images ≡ one_of (count (of_property r) images))
                      here (bare ∙ sym (ap one_of (no_first_image p images none_left)))
                | inr e ↦ covered q e
              ];
              unique = unique;
              few = few;
            })
      | inr (first, found) ↦
          let (listed, mine) = first_image-In p images found in
          let same = λ (q : ℕ). same_images env p images bare unique first listed mine q in
          let some_image = count-In (of_property p) first images listed mine in
          let once : one_of (count (of_property p) images) ≡ 1 = ground arith in
          rw (found, promote_first)
            (record {
              covers = λ q. elim (Bool-cases (p == q)) [
                | inl e ↦
                    let here : p ≡ q = ground arith in
                    subst
                      (λ (r : ℕ).
                        count (is_cover_of r)
                          (update_where (has_id first.id) (set_cover env true) images)
                        ≡ one_of (
                            count (of_property r)
                              (update_where (has_id first.id) (set_cover env true) images)))
                      here
                      (covered_again env p images bare unique first listed mine
                        ∙ sym (ap one_of (same p) ∙ once))
                | inr e ↦
                    others_same env p images bare unique first listed mine q e
                    ∙ covered q e
                    ∙ ap one_of (sym (same q))
              ];
              unique = marked_unique env first.id images unique;
              few = λ q. subst (λ (n : ℕ). n ≤ 30) (sym (same q)) (few q);
            })
    ]
