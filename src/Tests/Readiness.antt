-- ===== src/Tests/Readiness.antt =====
-- Concrete runs of the listing readiness.
use hostrepository.Base.{ℕ, ◌≡◌, refl, Bool, true, false, none, some, [], ◌∷◌, ◌==◌, leb}
use hostrepository.Base.Int.{pos}
use hostrepository.Base.Text.{codes, is_space}
use hostrepository.Base.Result.{ok}
use hostrepository.Hosts.Images.{
  PropertyImage, count, of_property, new_image, next_order, register_uploaded_property_image,
  insert_image, owns,
}
use hostrepository.Hosts.Images.Changes.{here, next, registered, Reach-IsCovered}
use hostrepository.Hosts.Readiness.{
  ListedProperty, ListingHost, Listings, ListingReadinessReport, report_of, readiness_row, approved,
  reviewed, record_review, images_ready, get_listing_readiness, assert_listing_ready,
  review_pilot_listing, build_checks, has_text, note_of,
}
use hostrepository.Hosts.Readiness.Reviewed.{review_pilot_listing_ready, images_check_covered}
use hostrepository.Tests.Data.{env, later}
use hostrepository.Tests.Images.{owners, kitchen}

abbrev flat : ListedProperty
flat = record {
  id = 7;
  host_id = 70;
  name = some (codes "Flat");
  property_type = some (codes "flat");
  description = some (codes "Near the sea");
  city = some (codes "Hove");
  country_code = some (codes "GB");
  max_guests = some (pos 2);
  bedrooms = some (pos 1);
  bathrooms = some (pos 10);
  nightly_price = some (pos 9000);
  currency = some (codes "GBP");
  min_stay_nights = some (pos 1);
  max_stay_nights = some (pos 30);
  cancellation_policy_id = some 1;
  check_in_time = some (codes "15:00");
  check_out_time = some (codes "11:00");
  address_line_1 = some (codes "1 Sea Road");
  postal_town = some (codes "Hove");
  postcode = some (codes "BN3 1AA");
  has_private_location = true;
  has_public_location = true;
  compliance_status = some (codes "approved");
  pilot_review_status = some (codes "pending");
  pilot_reviewed_at = none;
  pilot_reviewed_by = none;
  pilot_review_note = none;
}

abbrev host : ListingHost
host = record {
  id = 70;
  host_agreement_version = some (codes "pilot-2026-09");
  host_agreement_accepted_at = some 1;
  default_policies_accepted_at = some 1;
  payout_account_status = some (codes "active");
}

abbrev image : ℕ → Bool → PropertyImage
image id cover = record {
  id = id;
  property_id = 7;
  url = codes "u";
  pathname = codes "u";
  content_type = codes "image/png";
  size_bytes = 1;
  width = none;
  height = none;
  alt_text = none;
  sort_order = id;
  is_cover = cover;
  created_at = 1;
  updated_at = 1;
}

abbrev listings : Listings
listings = record {
  properties = flat ∷ [];
  hosts = host ∷ [];
  property_images = image 1 true ∷ image 2 false ∷ image 3 false ∷ [];
  compliance_items =
      record {
        property_id = 7;
        applicability = codes "required";
        review_status = codes "approved";
        owner_declared_compliant = true;
        evidence_url = some (codes "e");
        evidence_reference = none;
        valid_until = some 30000;
      }
      ∷ [];
  audit_log = [];
}

abbrev listings_reviewed : Listings
listings_reviewed = record_review env 7 3 approved (codes "Fine") listings

abbrev report : ListingReadinessReport
report = report_of (readiness_row env listings (reviewed env 3 approved (codes "Fine") flat) host)

review_pilot_listing_ready_example :
    (assert_listing_ready env 7 listings_reviewed ≡ ok report)
    × ((q : ℕ)
        → (q == 7) ≡ false
        → get_listing_readiness env q listings_reviewed ≡ get_listing_readiness env q listings)
unfolding review_pilot_listing get_listing_readiness record_review readiness_row build_checks
    has_text note_of is_space count
review_pilot_listing_ready_example = review_pilot_listing_ready env 7 3 (codes "Fine") listings refl

abbrev first_only : Listings
unfolding count next_order
first_only = record listings { property_images = new_image later 7 kitchen [] ∷ [] }

images_check_covered_example :
    images_ready (readiness_row env first_only flat host)
    ≡ leb 3 (count (of_property 7) first_only.property_images)
unfolding register_uploaded_property_image insert_image owns count next_order
images_check_covered_example = images_check_covered env first_only flat host (
    Reach-IsCovered {owners = owners}
      (next here (registered later 7 9 kitchen (new_image later 7 kitchen []) refl refl)))
