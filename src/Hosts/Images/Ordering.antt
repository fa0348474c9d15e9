-- ===== src/Hosts/Images/Ordering.antt =====
-- After reordering, the images stand in the order that was given.
use hostrepository.Base.{
  ℕ, suc, ◌+◌, ◌≤◌, ◌≡◌, refl, sym, ap, ◌∙◌, subst, true, false, Bool-cases, inl, inr, List, [],
  ◌∷◌, ◌++◌, ◌==◌, length, In, In-update_where, update_where, if◌then◌else◌, arith,
}
use hostrepository.Base.Result.{ok, >>=-eq-ok, require, throw_if, throw_if-eq-ok, ok_eq}
use hostrepository.Store.{Env}
use hostrepository.Hosts.Images.{
  PropertyImage, Owners, property_not_found, invalid_property_image_order, is_wrong_order,
  existing_ids, is_image, owns, lists, distinct_count, set_sort_order, number_images,
  reorder_property_images,
}

distinct_count_less : (ids : List ℕ) → distinct_count ids ≤ length ids
unfolding distinct_count
distinct_count_less [] = omega arith
distinct_count_less (id ∷ ids) = let rest = distinct_count_less ids in ground arith

-- Where all are distinct, what follows one does not list it again.
not_again :
    (a b : List ℕ) (id : ℕ)
    → distinct_count (a ++ (id ∷ b)) ≡ length (a ++ (id ∷ b))
    → lists b id ≡ false
unfolding distinct_count
not_again [] b id h = let less = distinct_count_less b in ground arith
not_again (c ∷ a) b id h =
    let less = distinct_count_less (a ++ (id ∷ b)) in not_again a b id (ground arith)

module _ (env : Env) (p id : ℕ) where
  abbrev placed : ℕ → ℕ → PropertyImage → PropertyImage
  placed other order x = if is_image p other x then set_sort_order env order x else x

  placed_other :
      (other order : ℕ) (x : PropertyImage)
      → (other == id) ≡ false
      → is_image p id (placed other order x) ≡ true
      → (is_image p id x ≡ true) × (x.sort_order ≡ (placed other order x).sort_order)
  placed_other other order x apart h = elim (Bool-cases (is_image p other x)) [
    | inl e ↦ absurd (ground arith)
    | inr e ↦ rw e (rw e at h, refl)
  ]

  placed_here :
      (order : ℕ) (x : PropertyImage)
      → is_image p id (placed id order x) ≡ true
      → (placed id order x).sort_order ≡ order
  placed_here order x h = ground arith

  -- A row that is not listed keeps its place.
  numbered_before :
      (order : ℕ) (ids : List ℕ) (images : List PropertyImage) (y : PropertyImage)
      → lists ids id ≡ false
      → In y (number_images env p order ids images)
      → is_image p id y ≡ true
      → (x : PropertyImage) × In x images × (is_image p id x ≡ true) × (x.sort_order ≡ y.sort_order)
  unfolding number_images
  numbered_before order [] images y h i k = (y, i, k, refl)
  numbered_before order (other ∷ ids) images y h i k =
      let apart : (other == id) ≡ false = ground arith in
      let absent : lists ids id ≡ false = ground arith in
      let (x, j, same, place) =
        numbered_before (suc order) ids
          (update_where (is_image p other) (set_sort_order env order) images) y absent i k in
      let (w, l, e) = In-update_where (is_image p other) (set_sort_order env order) images j in
      let (kept, still) =
        placed_other other order w apart
          (subst (λ (z : PropertyImage). is_image p id z ≡ true) e same) in
      (w, l, kept, still ∙ ap (λ (z : PropertyImage). z.sort_order) (sym e) ∙ place)

  numbered_at :
      (order : ℕ) (a b : List ℕ) (images : List PropertyImage) (y : PropertyImage)
      → lists b id ≡ false
      → In y (number_images env p order (a ++ (id ∷ b)) images)
      → is_image p id y ≡ true
      → y.sort_order ≡ order + length a
  unfolding number_images
  numbered_at order (c ∷ a) b images y h i k =
      let ih =
        numbered_at (suc order) a b (update_where (is_image p c) (set_sort_order env order) images)
          y h i k in
      omega arith
  numbered_at order [] b images y h i k =
      let (x, j, same, place) =
        numbered_before (suc order) b
          (update_where (is_image p id) (set_sort_order env order) images) y h i k in
      let (w, l, e) = In-update_where (is_image p id) (set_sort_order env order) images j in
      let here =
        placed_here order w (subst (λ (z : PropertyImage). is_image p id z ≡ true) e same) in
      let at = ap (λ (z : PropertyImage). z.sort_order) e in omega arith

-- Where the call succeeds, the image that is listed after `a` has as its place the number of those
-- before it.
pub reorder_property_images_order :
    (env : Env) (owners : Owners) (p id user : ℕ) (a b : List ℕ) (images : List PropertyImage)
    (image : PropertyImage) {after : List PropertyImage}
    → reorder_property_images env owners p (a ++ (id ∷ b)) user images ≡ ok after
    → In image after
    → is_image p id image ≡ true
    → image.sort_order ≡ length a
unfolding reorder_property_images
reorder_property_images_order env owners p id user a b images image {after} h i k =
    let ids = a ++ (id ∷ b) in
    let (u, mine, rest) = >>=-eq-ok (require (owns owners p user) property_not_found) _ h in
    let (v, whole, made) =
      >>=-eq-ok (throw_if (is_wrong_order ids (existing_ids p images)) invalid_property_image_order)
        _ rest in
    let right =
      throw_if-eq-ok (is_wrong_order ids (existing_ids p images)) invalid_property_image_order
        whole in
    let distinct : distinct_count ids ≡ length ids = ground arith in
    let there : In image (number_images env p 0 ids images) =
      subst (λ (images : List PropertyImage). In image images) (sym (ok_eq made)) i in
    omega (arith, numbered_at env p id 0 a b images image (not_again a b id distinct) there k)
