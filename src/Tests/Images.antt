-- ===== src/Tests/Images.antt =====
-- Concrete runs of the property images.
use hostrepository.Base.{ℕ, ◌≡◌, refl, List, [], ◌∷◌, inl, inr, length}
use hostrepository.Base.Text.{codes}
use hostrepository.Hosts.Images.{
  PropertyImage, Owners, UploadedPropertyBlob, count, owns, get_owned_image, new_image,
  insert_image, register_uploaded_property_image, clear_cover, mark_cover, set_property_image_cover,
  number_images, distinct_count, reorder_property_images, next_order,
}
use hostrepository.Hosts.Images.Covered.{IsCovered}
use hostrepository.Hosts.Images.Changes.{here, next, registered, cover_set, Reach-IsCovered}
use hostrepository.Hosts.Images.Ordering.{reorder_property_images_order}
use hostrepository.Tests.Data.{env, later, cottage}

abbrev pub owners : Owners
owners = record { properties = cottage ∷ []; host_profiles = record { id = 70; user_id = 9 } ∷ [] }

abbrev pub kitchen : UploadedPropertyBlob
kitchen = record {
  url = codes "k";
  pathname = codes "k";
  content_type = codes "image/png";
  size = 10;
}

abbrev garden : UploadedPropertyBlob
garden = record {
  url = codes "g";
  pathname = codes "g";
  content_type = codes "image/png";
  size = 20;
}

abbrev first : PropertyImage
unfolding count next_order
first = new_image env 7 kitchen []

abbrev second : PropertyImage
unfolding count next_order
second = new_image later 7 garden (first ∷ [])

abbrev chosen : List PropertyImage
unfolding count next_order mark_cover clear_cover
chosen = mark_cover env 7 501 (clear_cover env 7 (second ∷ first ∷ []))

Reach-IsCovered_example : IsCovered chosen
unfolding register_uploaded_property_image insert_image owns count next_order
    set_property_image_cover get_owned_image mark_cover clear_cover
Reach-IsCovered_example = Reach-IsCovered {owners = owners} (
    next
      (next (next here (registered env 7 9 kitchen first refl refl))
        (registered later 7 9 garden second refl refl))
      (cover_set env 7 501 9 refl))

abbrev moved : PropertyImage
moved = record first { sort_order = 1 }

abbrev earlier_ids : List ℕ
earlier_ids = 501 ∷ []

reorder_property_images_order_example : moved.sort_order ≡ length earlier_ids
unfolding reorder_property_images number_images owns distinct_count count next_order
reorder_property_images_order_example =
    reorder_property_images_order env owners 7 500 9 earlier_ids [] (second ∷ first ∷ []) moved refl
      (inr (inl refl)) refl
