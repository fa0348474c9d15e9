-- ===== src/Hosts/Images.antt =====
-- lib/hosts/propertyImages.ts: the images of properties, one of them the cover. A call returns the row
-- it has read or written; the columns are those of `PropertyImageRow`.
pub mod Counting
pub mod Covered
pub mod Choosing
pub mod Deleting
pub mod Promoting
pub mod Changes
pub mod Ordering
use hostrepository.Base.{
  ℕ, zero, suc, ◌+◌, Bool, true, false, not, ◌&&◌, ◌||◌, Option, none, some, List, [], ◌∷◌, ◌++◌,
  map, ◌==◌, leb, ltb, length, all, any, find?, filter, update_where, if◌then◌else◌,
}
use hostrepository.Base.Text.{Text, same_text}
use hostrepository.Base.Result.{Result, ok, err, ◌>>=◌, ◌>>◌, throw_if, require, or_throw}
use hostrepository.Store.{Env, Property}

abbrev pub max_property_images : ℕ
max_property_images = 30

pub record UploadedPropertyBlob : Type 0 where
  pub url : Text
  pub pathname : Text
  pub content_type : Text
  pub size : ℕ

pub record PropertyImage : Type 0 where
  pub id : ℕ
  pub property_id : ℕ
  pub url : Text
  pub pathname : Text
  pub content_type : Text
  pub size_bytes : ℕ
  pub width : Option ℕ
  pub height : Option ℕ
  pub alt_text : Option Text
  pub sort_order : ℕ
  pub is_cover : Bool
  pub created_at : ℕ
  pub updated_at : ℕ

pub data PropertyImageError : Type 0 where
  property_not_found property_image_not_found property_image_conflict : PropertyImageError
  property_image_limit_reached invalid_property_image_order : PropertyImageError

-- A row of host_profiles, by its user.
pub record HostUser : Type 0 where
  pub id : ℕ
  pub user_id : ℕ

-- The rows that the ownership test joins.
pub record Owners : Type 0 where
  pub properties : List Property
  pub host_profiles : List HostUser

-- `assertPropertyOwnership`
unfoldable pub owns : Owners → ℕ → ℕ → Bool
owns owners p user =
    any
      (λ (property : Property).
        property.id == p
        && any (λ (profile : HostUser). profile.id == property.host_id && profile.user_id == user)
            owners.host_profiles)
      owners.properties

abbrev pub of_property : ℕ → PropertyImage → Bool
of_property p image = image.property_id == p

-- `WHERE id = $1 AND property_id = $2`
abbrev pub is_image : ℕ → ℕ → PropertyImage → Bool
is_image p id image = image.id == id && image.property_id == p

-- `getOwnedImage`
unfoldable pub get_owned_image :
    Owners → ℕ → ℕ → ℕ → List PropertyImage → Result PropertyImageError PropertyImage
get_owned_image owners p id user images = do
  require (owns owners p user) property_not_found
  or_throw (find? (is_image p id) images) property_image_not_found

-- `COUNT(*) … WHERE`
unfoldable pub count : (PropertyImage → Bool) → List PropertyImage → ℕ
count test [] = 0
count test (image ∷ images) = let rest = count test images in if test image then suc rest else rest

-- `COALESCE(MAX(sort_order), -1) + 1`
unfoldable pub next_order : ℕ → List PropertyImage → ℕ
next_order p [] = 0
next_order p (image ∷ images) =
    let rest = next_order p images in
    if of_property p image && leb rest image.sort_order then suc image.sort_order else rest

abbrev pub new_image : Env → ℕ → UploadedPropertyBlob → List PropertyImage → PropertyImage
new_image env p blob images = record {
  id = env.fresh_id;
  property_id = p;
  url = blob.url;
  pathname = blob.pathname;
  content_type = blob.content_type;
  size_bytes = blob.size;
  width = none;
  height = none;
  alt_text = none;
  sort_order = next_order p images;
  is_cover = count (of_property p) images == 0;
  created_at = env.now;
  updated_at = env.now;
}

unfoldable pub insert_image :
    Env
    → ℕ
    → UploadedPropertyBlob
    → List PropertyImage
    → Result PropertyImageError (PropertyImage × List PropertyImage)
insert_image env p blob images = do
  throw_if (leb max_property_images (count (of_property p) images)) property_image_limit_reached
  let image = new_image env p blob images
  ok (image, image ∷ images)

abbrev pub registered_before :
    ℕ
    → PropertyImage
    → List PropertyImage
    → Result PropertyImageError (PropertyImage × List PropertyImage)
registered_before p row images =
    throw_if (not (row.property_id == p)) property_image_conflict >>= λ mine. ok (row, images)

unfoldable pub register_uploaded_property_image :
    Env
    → Owners
    → ℕ
    → ℕ
    → UploadedPropertyBlob
    → List PropertyImage
    → Result PropertyImageError (PropertyImage × List PropertyImage)
register_uploaded_property_image env owners p user blob images = do
  require (owns owners p user) property_not_found
  elim (find? (λ (image : PropertyImage). same_text image.url blob.url) images) [
    | some row ↦ registered_before p row images
    | none ↦ insert_image env p blob images
  ]

abbrev pub set_cover : Env → Bool → PropertyImage → PropertyImage
set_cover env cover image = record image { is_cover = cover; updated_at = env.now }

-- The two updates of `setPropertyImageCover`.
unfoldable pub clear_cover : Env → ℕ → List PropertyImage → List PropertyImage
clear_cover env p =
    update_where (λ (image : PropertyImage). image.property_id == p && image.is_cover)
      (set_cover env false)

unfoldable pub mark_cover : Env → ℕ → ℕ → List PropertyImage → List PropertyImage
mark_cover env p id = update_where (is_image p id) (set_cover env true)

unfoldable pub set_property_image_cover :
    Env → Owners → ℕ → ℕ → ℕ → List PropertyImage → Result PropertyImageError (List PropertyImage)
set_property_image_cover env owners p id user images = do
  owned ← get_owned_image owners p id user images
  ok (mark_cover env p id (clear_cover env p images))

abbrev pub set_alt_text : Env → Option Text → PropertyImage → PropertyImage
set_alt_text env alt_text image = record image { alt_text = alt_text; updated_at = env.now }

unfoldable pub update_property_image_alt_text :
    Env
    → Owners
    → ℕ
    → ℕ
    → ℕ
    → Option Text
    → List PropertyImage
    → Result PropertyImageError (List PropertyImage)
update_property_image_alt_text env owners p id user alt_text images = do
  owned ← get_owned_image owners p id user images
  ok (update_where (is_image p id) (set_alt_text env alt_text) images)

abbrev pub has_id : ℕ → PropertyImage → Bool
has_id id image = image.id == id

-- `imageIds.includes(id)`
abbrev pub lists : List ℕ → ℕ → Bool
lists ids id = any (λ (listed : ℕ). listed == id) ids

-- `new Set(ids).size`
unfoldable pub distinct_count : List ℕ → ℕ
distinct_count [] = 0
distinct_count (id ∷ ids) = let rest = distinct_count ids in if lists ids id then rest else suc rest

abbrev pub set_sort_order : Env → ℕ → PropertyImage → PropertyImage
set_sort_order env order image = record image { sort_order = order; updated_at = env.now }

-- The loop over the entries, from an index.
unfoldable pub number_images : Env → ℕ → ℕ → List ℕ → List PropertyImage → List PropertyImage
number_images env p order [] images = images
number_images env p order (id ∷ ids) images =
    number_images env p (suc order) ids
      (update_where (is_image p id) (set_sort_order env order) images)

abbrev pub existing_ids : ℕ → List PropertyImage → List ℕ
existing_ids p images = map (λ (image : PropertyImage). image.id) (filter (of_property p) images)

abbrev pub is_wrong_order : List ℕ → List ℕ → Bool
is_wrong_order ids existing =
    not (length ids == length existing)
    || not (distinct_count ids == length ids)
    || any (λ (id : ℕ). not (lists ids id)) existing

unfoldable pub reorder_property_images :
    Env
    → Owners
    → ℕ
    → List ℕ
    → ℕ
    → List PropertyImage
    → Result PropertyImageError (List PropertyImage)
reorder_property_images env owners p ids user images = do
  require (owns owners p user) property_not_found
  throw_if (is_wrong_order ids (existing_ids p images)) invalid_property_image_order
  ok (number_images env p 0 ids images)

-- `ORDER BY sort_order, created_at, id`
abbrev pub comes_before : PropertyImage → PropertyImage → Bool
comes_before a b =
    if a.sort_order == b.sort_order
    then (if a.created_at == b.created_at then leb a.id b.id else ltb a.created_at b.created_at)
    else ltb a.sort_order b.sort_order

abbrev pub earlier : PropertyImage → Option PropertyImage → PropertyImage
earlier a none = a
earlier a (some b) = if comes_before a b then a else b

-- The first image of a property in that order.
unfoldable pub first_image : ℕ → List PropertyImage → Option PropertyImage
first_image p [] = none
first_image p (image ∷ images) =
    let rest = first_image p images in
    if of_property p image then some (earlier image rest) else rest

-- `UPDATE … WHERE id = (SELECT … LIMIT 1)`, which updates nothing where the property has no image.
unfoldable pub promote_first : Env → ℕ → List PropertyImage → List PropertyImage
promote_first env p images = elim (first_image p images) [
  | none ↦ images
  | some first ↦ update_where (has_id first.id) (set_cover env true) images
]

unfoldable pub delete_property_image :
    Env
    → Owners
    → ℕ
    → ℕ
    → ℕ
    → List PropertyImage
    → Result PropertyImageError (Text × List PropertyImage)
delete_property_image env owners p id user images = do
  image ← get_owned_image owners p id user images
  let rest = filter (λ (row : PropertyImage). not (is_image p id row)) images
  ok (image.url, if image.is_cover then promote_first env p rest else rest)
