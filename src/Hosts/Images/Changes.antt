-- ===== src/Hosts/Images/Changes.antt =====
-- Whatever the hosts do with their images: each property that has images has one cover.
use hostrepository.Base.{
  ℕ, ◌≡◌, refl, sym, ap, ◌∙◌, subst, true, not, Bool-cases, Option-cases, inl, inr, List, [], ◌==◌,
  leb, find?, find?-In, In, arith, Option,
}
use hostrepository.Base.Text.{Text, same_text}
use hostrepository.Base.Result.{
  ok, >>=-eq-ok, require, or_throw-eq-ok, throw_if, throw_if-eq-ok, ok_eq,
}
use hostrepository.Store.{Env}
use hostrepository.Hosts.Images.{
  PropertyImage, Owners, UploadedPropertyBlob, property_not_found, property_image_not_found,
  property_image_limit_reached, property_image_conflict, invalid_property_image_order,
  is_wrong_order, existing_ids, count, of_property, is_image, has_id, owns, get_owned_image,
  insert_image, registered_before, register_uploaded_property_image, set_property_image_cover,
  set_alt_text, update_property_image_alt_text, reorder_property_images, delete_property_image,
  max_property_images,
}
use hostrepository.Hosts.Images.Covered.{is_cover_of, one_of, IsCovered}
use hostrepository.Hosts.Images.Deleting.{
  rest_images, no_cover_left, rest_other, rest_unique, rest_few, rest-IsCovered,
}
use hostrepository.Hosts.Images.Covered.{
  update-IsCovered, number_images-IsCovered, insert-IsCovered,
}
use hostrepository.Hosts.Images.Choosing.{set_cover-IsCovered}
use hostrepository.Hosts.Images.Promoting.{promote_first-IsCovered}

-- One call that succeeded, by any user; a new image gets an identifier that is in no row.
pub data Change (owners : Owners) : List PropertyImage → List PropertyImage → Type 0 where
  registered :
      {before after : List PropertyImage} (env : Env) (p user : ℕ) (blob : UploadedPropertyBlob)
      (image : PropertyImage)
      → count (has_id env.fresh_id) before ≡ 0
      → register_uploaded_property_image env owners p user blob before ≡ ok (image, after)
      → Change owners before after
  cover_set :
      {before after : List PropertyImage} (env : Env) (p id user : ℕ)
      → set_property_image_cover env owners p id user before ≡ ok after
      → Change owners before after
  described :
      {before after : List PropertyImage} (env : Env) (p id user : ℕ) (alt_text : Option Text)
      → update_property_image_alt_text env owners p id user alt_text before ≡ ok after
      → Change owners before after
  reordered :
      {before after : List PropertyImage} (env : Env) (p : ℕ) (ids : List ℕ) (user : ℕ)
      → reorder_property_images env owners p ids user before ≡ ok after
      → Change owners before after
  deleted :
      {before after : List PropertyImage} (env : Env) (p id user : ℕ) (url : Text)
      → delete_property_image env owners p id user before ≡ ok (url, after)
      → Change owners before after

get_owned_image-In :
    (owners : Owners) (p id user : ℕ) (images : List PropertyImage) {image : PropertyImage}
    → get_owned_image owners p id user images ≡ ok image
    → In image images × (is_image p id image ≡ true)
unfolding get_owned_image
get_owned_image-In owners p id user images h =
    let (u, mine, found) = >>=-eq-ok (require (owns owners p user) property_not_found) _ h in
    find?-In (is_image p id) images
      (or_throw-eq-ok (find? (is_image p id) images) property_image_not_found found)

insert_image-IsCovered :
    (env : Env) (p : ℕ) (blob : UploadedPropertyBlob) (images : List PropertyImage)
    {made : PropertyImage × List PropertyImage}
    → count (has_id env.fresh_id) images ≡ 0
    → IsCovered images
    → insert_image env p blob images ≡ ok made
    → IsCovered made.1
unfolding insert_image
insert_image-IsCovered env p blob images fresh h e =
    let (u, room, made) =
      >>=-eq-ok
        (throw_if (leb max_property_images (count (of_property p) images))
          property_image_limit_reached)
        _ e in
    let free =
      throw_if-eq-ok (leb max_property_images (count (of_property p) images))
        property_image_limit_reached room in
    subst (λ (m : PropertyImage × List PropertyImage). IsCovered m.1) (ok_eq made)
      (insert-IsCovered env p blob images fresh (ground arith) h)

register-IsCovered :
    (env : Env) (owners : Owners) (p user : ℕ) (blob : UploadedPropertyBlob)
    (images : List PropertyImage) {made : PropertyImage × List PropertyImage}
    → count (has_id env.fresh_id) images ≡ 0
    → IsCovered images
    → register_uploaded_property_image env owners p user blob images ≡ ok made
    → IsCovered made.1
unfolding register_uploaded_property_image
register-IsCovered env owners p user blob images fresh h e =
    let (u, mine, rest) = >>=-eq-ok (require (owns owners p user) property_not_found) _ e in
    elim (Option-cases (find? (λ (image : PropertyImage). same_text image.url blob.url) images)) [
      | inl n ↦ insert_image-IsCovered env p blob images fresh h (rw n at rest)
      | inr (row, s) ↦
          let again : registered_before p row images ≡ ok _ = rw s at rest in
          let (v, same, made) =
            >>=-eq-ok (throw_if (not (row.property_id == p)) property_image_conflict) _ again in
          subst (λ (m : PropertyImage × List PropertyImage). IsCovered m.1) (ok_eq made) h
    ]

delete-IsCovered :
    (env : Env) (owners : Owners) (p id user : ℕ) (images : List PropertyImage)
    {made : Text × List PropertyImage}
    → IsCovered images
    → delete_property_image env owners p id user images ≡ ok made
    → IsCovered made.1
unfolding delete_property_image
delete-IsCovered env owners p id user images h e =
    let (image, owned, made) = >>=-eq-ok (get_owned_image owners p id user images) _ e in
    let (listed, asked) = get_owned_image-In owners p id user images owned in
    subst (λ (m : Text × List PropertyImage). IsCovered m.1) (ok_eq made)
      (elim (Bool-cases image.is_cover) [
        | inr plain ↦ rw plain (rest-IsCovered p id image images listed asked h plain)
        | inl cover ↦ rw cover (
            promote_first-IsCovered env p (rest_images p id image images listed asked h)
              (no_cover_left p id image images listed asked h cover)
              (λ q other.
                rest_other p id image images listed asked h q (is_cover_of q) other
                  (λ x. ground arith)
                ∙ h.covers q
                ∙ ap one_of (
                    sym (
                      rest_other p id image images listed asked h q (of_property q) other
                        (λ x k. k))))
              (rest_unique p id image images listed asked h)
              (rest_few p id image images listed asked h))
      ])

module _ (env : Env) (owners : Owners) (p user : ℕ) (images : List PropertyImage)
    (h : IsCovered images) where
  cover-IsCovered :
      (id : ℕ) {after : List PropertyImage}
      → set_property_image_cover env owners p id user images ≡ ok after
      → IsCovered after
  unfolding set_property_image_cover
  cover-IsCovered id e =
      let (image, owned, made) = >>=-eq-ok (get_owned_image owners p id user images) _ e in
      let (listed, asked) = get_owned_image-In owners p id user images owned in
      subst IsCovered (ok_eq made) (set_cover-IsCovered p id image images listed asked h env)

  describe-IsCovered :
      (id : ℕ) (alt_text : Option Text) {after : List PropertyImage}
      → update_property_image_alt_text env owners p id user alt_text images ≡ ok after
      → IsCovered after
  unfolding update_property_image_alt_text
  describe-IsCovered id alt_text e =
      let (image, owned, made) = >>=-eq-ok (get_owned_image owners p id user images) _ e in
      subst IsCovered (ok_eq made) (
        update-IsCovered (is_image p id) (set_alt_text env alt_text) images
          (λ x. (refl, refl, refl)) h)

  reorder-IsCovered :
      (ids : List ℕ) {after : List PropertyImage}
      → reorder_property_images env owners p ids user images ≡ ok after
      → IsCovered after
  unfolding reorder_property_images
  reorder-IsCovered ids e =
      let (u, mine, rest) = >>=-eq-ok (require (owns owners p user) property_not_found) _ e in
      let wrong = is_wrong_order ids (existing_ids p images) in
      let (v, whole, made) = >>=-eq-ok (throw_if wrong invalid_property_image_order) _ rest in
      subst IsCovered (ok_eq made) (number_images-IsCovered env p 0 ids images h)

Change-IsCovered :
    {owners : Owners} {before after : List PropertyImage}
    → Change owners before after
    → IsCovered before
    → IsCovered after
Change-IsCovered {owners} {before} (registered env p user blob image fresh e) h =
    register-IsCovered env owners p user blob before fresh h e
Change-IsCovered {owners} {before} (cover_set env p id user e) h =
    cover-IsCovered env owners p user before h id e
Change-IsCovered {owners} {before} (described env p id user alt_text e) h =
    describe-IsCovered env owners p user before h id alt_text e
Change-IsCovered {owners} {before} (reordered env p ids user e) h =
    reorder-IsCovered env owners p user before h ids e
Change-IsCovered {owners} {before} (deleted env p id user url e) h =
    delete-IsCovered env owners p id user before h e

pub data Reach (owners : Owners) (start : List PropertyImage) : List PropertyImage → Type 0 where
  here : Reach owners start start
  next :
      {before after : List PropertyImage}
      → Reach owners start before
      → Change owners before after
      → Reach owners start after

-- From a table without images, whatever is registered, chosen, described, reordered and deleted: each
-- property that has images has exactly one cover, none has more than 30 images, and no identifier is
-- used twice, if new identifiers are in no row.
pub Reach-IsCovered :
    {owners : Owners} {images : List PropertyImage} → Reach owners [] images → IsCovered images
Reach-IsCovered here =
    unfold count in
    record { covers = λ p. refl; unique = λ id. omega arith; few = λ p. omega arith }
Reach-IsCovered (next reach change) = Change-IsCovered change (Reach-IsCovered reach)
