-- ===== src/Hosts/Images/Deleting.antt =====
-- Deleting an image: what is left is covered again.
use hostrepository.Base.{
  ℕ, suc, ◌+◌, ◌≤◌, ◌≡◌, sym, ap, ◌∙◌, subst, Bool, true, false, not, ◌&&◌, Bool-cases, inl, inr,
  List, ◌==◌, filter, In, arith,
}
use hostrepository.Hosts.Images.{PropertyImage, count, of_property, is_image, has_id}
use hostrepository.Hosts.Images.Counting.{
  count-filter, count_same, count_less, count_split, count_none, count-In,
}
use hostrepository.Hosts.Images.Covered.{is_cover_of, one_of, IsCovered}
use hostrepository.Hosts.Images.Choosing.{one_image, covered_once}

-- The rows that are left after one has been deleted.
module _ (p id : ℕ) (image : PropertyImage) (images : List PropertyImage) (listed : In image images)
    (asked : is_image p id image ≡ true) (h : IsCovered images) where
  abbrev pub rest_images : List PropertyImage
  rest_images = filter (λ (row : PropertyImage). not (is_image p id row)) images

  count-rest :
      (test : PropertyImage → Bool)
      → count test images
        ≡ count test rest_images + count (λ (x : PropertyImage). is_image p id x && test x) images
  count-rest test =
      count_split (is_image p id) test images
      ∙ ap (λ (n : ℕ). n + count (λ (x : PropertyImage). is_image p id x && test x) images)
          (sym (count-filter test (λ (x : PropertyImage). not (is_image p id x)) images))

  pub rest_unique : (other : ℕ) → count (has_id other) rest_images ≤ 1
  rest_unique other = let e = count-rest (has_id other) in let u = h.unique other in omega arith

  pub rest_few : (q : ℕ) → count (of_property q) rest_images ≤ 30
  rest_few q = let e = count-rest (of_property q) in let u = h.few q in omega arith

  -- Nothing of another property is deleted.
  pub rest_other :
      (q : ℕ) (test : PropertyImage → Bool)
      → (p == q) ≡ false
      → ((x : PropertyImage) → test x ≡ true → of_property q x ≡ true)
      → count test rest_images ≡ count test images
  rest_other q test other inside =
      let nothing =
        count_same (λ (x : PropertyImage). is_image p id x && test x) (λ (x : PropertyImage). false)
          images (λ x. ground (arith, inside x))
        ∙ count_none images in
      let e = count-rest test in omega arith

  rest_one_less : count (of_property p) images ≡ suc (count (of_property p) rest_images)
  rest_one_less =
      let one = one_image p id image images listed asked h in
      let same =
        count_same (λ (x : PropertyImage). is_image p id x && of_property p x) (is_image p id)
          images (λ x. ground arith) in
      let e = count-rest (of_property p) in omega arith

  pub no_cover_left : image.is_cover ≡ true → count (is_cover_of p) rest_images ≡ 0
  no_cover_left cover =
      let there =
        count-In (λ (x : PropertyImage). is_image p id x && is_cover_of p x) image images listed
          (ground arith) in
      let once = covered_once p id image images listed asked h in
      let total = h.covers p in let e = count-rest (is_cover_of p) in omega arith

  cover_left : image.is_cover ≡ false → count (is_cover_of p) rest_images ≡ 1
  cover_left plain =
      let one = one_image p id image images listed asked h in
      let there =
        count-In (λ (x : PropertyImage). not (x.is_cover) && is_image p id x) image images listed
          (ground arith) in
      let split = count_split (λ (x : PropertyImage). x.is_cover) (is_image p id) images in
      let same =
        count_same (λ (x : PropertyImage). is_image p id x && is_cover_of p x)
          (λ (x : PropertyImage). x.is_cover && is_image p id x) images (λ x. ground arith) in
      let once = covered_once p id image images listed asked h in
      let total = h.covers p in let e = count-rest (is_cover_of p) in omega arith

  pub rest-IsCovered : image.is_cover ≡ false → IsCovered rest_images
  rest-IsCovered plain = record {
    covers = λ q. elim (Bool-cases (p == q)) [
      | inl e ↦
          let here : p ≡ q = ground arith in
          let left = cover_left plain in
          let more = count_less (is_cover_of p) (of_property p) rest_images (λ x. ground arith) in
          subst
            (λ (r : ℕ).
              count (is_cover_of r) rest_images ≡ one_of (count (of_property r) rest_images))
            here (ground arith)
      | inr e ↦
          rest_other q (is_cover_of q) e (λ x. ground arith)
          ∙ h.covers q
          ∙ ap one_of (sym (rest_other q (of_property q) e (λ x k. k)))
    ];
    unique = rest_unique;
    few = rest_few;
  }
