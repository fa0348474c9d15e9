-- ===== src/Hosts/Images/Covered.antt =====
-- Each property that has images has one cover.
use hostrepository.Base.{
  ℕ, suc, ◌≤◌, ◌≡◌, refl, sym, ap, ◌∙◌, subst, Bool, ◌&&◌, Bool-cases, inl, inr, List, [], ◌∷◌,
  ◌==◌, update_where, if◌then◌else◌, arith,
}
use hostrepository.Store.{Env}
use hostrepository.Hosts.Images.{
  PropertyImage, UploadedPropertyBlob, count, of_property, is_image, has_id, new_image,
  set_sort_order, number_images,
}
use hostrepository.Hosts.Images.Counting.{count-update_where, count_same}

abbrev pub is_cover_of : ℕ → PropertyImage → Bool
is_cover_of p image = image.property_id == p && image.is_cover

-- 1 for a property that has images.
abbrev pub one_of : ℕ → ℕ
one_of n = if n == 0 then 0 else 1

-- One cover for each property that has images, identifiers that are not used twice, and at most 30
-- images of a property.
pub record IsCovered (images : List PropertyImage) : Type 0 where
  pub covers : (p : ℕ) → count (is_cover_of p) images ≡ one_of (count (of_property p) images)
  pub unique : (id : ℕ) → count (has_id id) images ≤ 1
  pub few : (p : ℕ) → count (of_property p) images ≤ 30

-- Rows that change neither their identifier, nor their property, nor whether they are the cover.
pub update-IsCovered :
    (p : PropertyImage → Bool) (f : PropertyImage → PropertyImage) (images : List PropertyImage)
    → ((x : PropertyImage)
        → ((f x).id ≡ x.id) × ((f x).property_id ≡ x.property_id) × ((f x).is_cover ≡ x.is_cover))
    → IsCovered images
    → IsCovered (update_where p f images)
update-IsCovered p f images keeps h =
    let same_images = λ (q : ℕ).
      count-update_where (of_property q) p f images
      ∙ count_same (λ (x : PropertyImage). of_property q (if p x then f x else x)) (of_property q)
          images (λ x. ground (arith, keeps x)) in
    let same_covers = λ (q : ℕ).
      count-update_where (is_cover_of q) p f images
      ∙ count_same (λ (x : PropertyImage). is_cover_of q (if p x then f x else x)) (is_cover_of q)
          images (λ x. ground (arith, keeps x)) in
    let same_ids = λ (id : ℕ).
      count-update_where (has_id id) p f images
      ∙ count_same (λ (x : PropertyImage). has_id id (if p x then f x else x)) (has_id id) images
          (λ x. ground (arith, keeps x)) in
    record {
      covers = λ q. same_covers q ∙ h.covers q ∙ ap one_of (sym (same_images q));
      unique = λ id. subst (λ (n : ℕ). n ≤ 1) (sym (same_ids id)) (h.unique id);
      few = λ q. subst (λ (n : ℕ). n ≤ 30) (sym (same_images q)) (h.few q);
    }

pub number_images-IsCovered :
    (env : Env) (p order : ℕ) (ids : List ℕ) (images : List PropertyImage)
    → IsCovered images
    → IsCovered (number_images env p order ids images)
unfolding number_images
number_images-IsCovered env p order [] images h = h
number_images-IsCovered env p order (id ∷ ids) images h =
    number_images-IsCovered env p (suc order) ids
      (update_where (is_image p id) (set_sort_order env order) images)
      (update-IsCovered (is_image p id) (set_sort_order env order) images (λ x. (refl, refl, refl))
        h)

module _ (env : Env) (p : ℕ) (blob : UploadedPropertyBlob) (images : List PropertyImage)
    (h : IsCovered images) where
  insert_covers :
      (q : ℕ)
      → count (is_cover_of q) (new_image env p blob images ∷ images)
        ≡ one_of (count (of_property q) (new_image env p blob images ∷ images))
  unfolding count
  insert_covers q =
      let old = h.covers q in
      elim (Bool-cases (p == q)) [
        | inl e ↦
            let here : p ≡ q = ground arith in
            let same = ap (λ (r : ℕ). count (of_property r) images) here in rw e (ground arith)
        | inr e ↦ rw e old
      ]

  insert_few :
      (q : ℕ)
      → count (of_property p) images ≤ 29
      → count (of_property q) (new_image env p blob images ∷ images) ≤ 30
  unfolding count
  insert_few q room =
      let old = h.few q in
      elim (Bool-cases (p == q)) [
        | inl e ↦
            let here : p ≡ q = ground arith in
            let same = ap (λ (r : ℕ). count (of_property r) images) here in rw e (omega arith)
        | inr e ↦ rw e old
      ]

  insert_unique :
      (id : ℕ)
      → count (has_id env.fresh_id) images ≡ 0
      → count (has_id id) (new_image env p blob images ∷ images) ≤ 1
  unfolding count
  insert_unique id fresh =
      let old = h.unique id in
      elim (Bool-cases (env.fresh_id == id)) [
        | inl e ↦
            let here : env.fresh_id ≡ id = ground arith in
            let same = ap (λ (r : ℕ). count (has_id r) images) here in rw e (omega arith)
        | inr e ↦ rw e old
      ]

-- A new image, whose identifier is in no row.
pub insert-IsCovered :
    (env : Env) (p : ℕ) (blob : UploadedPropertyBlob) (images : List PropertyImage)
    → count (has_id env.fresh_id) images ≡ 0
    → count (of_property p) images ≤ 29
    → IsCovered images
    → IsCovered (new_image env p blob images ∷ images)
insert-IsCovered env p blob images fresh room h = record {
  covers = insert_covers env p blob images h;
  unique = λ id. insert_unique env p blob images h id fresh;
  few = λ q. insert_few env p blob images h q room;
}
