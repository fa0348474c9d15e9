-- ===== src/Hosts/Images/Choosing.antt =====
-- Setting the cover of a property.
use hostrepository.Base.{
  ℕ, ◌≤◌, ◌≡◌, sym, ap, ◌∙◌, subst, Bool, true, false, Bool-cases, inl, inr, List, ◌==◌, In,
  update_where, if◌then◌else◌, arith,
}
use hostrepository.Store.{Env}
use hostrepository.Hosts.Images.{
  PropertyImage, count, of_property, is_image, has_id, set_cover, clear_cover, mark_cover,
}
use hostrepository.Hosts.Images.Counting.{count-update_where, count_same, count_less, count-In}
use hostrepository.Hosts.Images.Covered.{is_cover_of, one_of, IsCovered}

-- What setting the cover does to a row.
module _ (env : Env) (p id : ℕ) where
  abbrev moved : PropertyImage → PropertyImage
  moved x =
      let cleared = if is_cover_of p x then set_cover env false x else x in
      if is_image p id cleared then set_cover env true cleared else cleared

  count-moved :
      (test : PropertyImage → Bool) (images : List PropertyImage)
      → count test (mark_cover env p id (clear_cover env p images))
        ≡ count (λ (x : PropertyImage). test (moved x)) images
  unfolding mark_cover clear_cover
  count-moved test images =
      count-update_where test (is_image p id) (set_cover env true)
        (update_where (is_cover_of p) (set_cover env false) images)
      ∙ count-update_where
          (λ (x : PropertyImage). test (if is_image p id x then set_cover env true x else x))
          (is_cover_of p) (set_cover env false) images

  moved_property : (q : ℕ) (x : PropertyImage) → of_property q (moved x) ≡ of_property q x
  moved_property q x = ground arith

  moved_id : (other : ℕ) (x : PropertyImage) → has_id other (moved x) ≡ has_id other x
  moved_id other x = ground arith

  moved_here : (x : PropertyImage) → is_cover_of p (moved x) ≡ is_image p id x
  moved_here x = ground arith

  moved_other :
      (q : ℕ) → (p == q) ≡ false → (x : PropertyImage) → is_cover_of q (moved x) ≡ is_cover_of q x
  moved_other q other x = ground arith

-- The row that is asked for is the only one with its identifier.
module _ (p id : ℕ) (image : PropertyImage) (images : List PropertyImage) (listed : In image images)
    (asked : is_image p id image ≡ true) (h : IsCovered images) where
  pub one_image : count (is_image p id) images ≡ 1
  one_image =
      let least = count-In (is_image p id) image images listed asked in
      let most = count_less (is_image p id) (has_id id) images (λ x. ground arith) in
      let unique = h.unique id in omega arith

  pub has_images : 1 ≤ count (of_property p) images
  has_images = count-In (of_property p) image images listed (ground arith)

  pub covered_once : one_of (count (of_property p) images) ≡ 1
  covered_once = let some_image = has_images in ground arith

  moved_covers :
      (env : Env) (q : ℕ)
      → count (λ (x : PropertyImage). is_cover_of q (moved env p id x)) images
        ≡ one_of (count (of_property q) images)
  moved_covers env q = elim (Bool-cases (p == q)) [
    | inl e ↦
        let here : p ≡ q = ground arith in
        subst
          (λ (r : ℕ).
            count (λ (x : PropertyImage). is_cover_of r (moved env p id x)) images
            ≡ one_of (count (of_property r) images))
          here
          (count_same (λ (x : PropertyImage). is_cover_of p (moved env p id x)) (is_image p id)
              images (moved_here env p id)
            ∙ one_image
            ∙ sym covered_once)
    | inr e ↦
        count_same (λ (x : PropertyImage). is_cover_of q (moved env p id x)) (is_cover_of q) images
          (moved_other env p id q e)
        ∙ h.covers q
  ]

  pub set_cover-IsCovered : (env : Env) → IsCovered (mark_cover env p id (clear_cover env p images))
  set_cover-IsCovered env =
      let same_images = λ (q : ℕ).
        count-moved env p id (of_property q) images
        ∙ count_same (λ (x : PropertyImage). of_property q (moved env p id x)) (of_property q)
            images (moved_property env p id q) in
      let same_ids = λ (other : ℕ).
        count-moved env p id (has_id other) images
        ∙ count_same (λ (x : PropertyImage). has_id other (moved env p id x)) (has_id other) images
            (moved_id env p id other) in
      record {
        covers = λ q.
            count-moved env p id (is_cover_of q) images
            ∙ moved_covers env q
            ∙ ap one_of (sym (same_images q));
        unique = λ other. subst (λ (n : ℕ). n ≤ 1) (sym (same_ids other)) (h.unique other);
        few = λ q. subst (λ (n : ℕ). n ≤ 30) (sym (same_images q)) (h.few q);
      }
