-- ===== src/Hosts/Readiness.antt =====
-- lib/hosts/listingReadiness.ts: what a listing lacks before it may be published, and the pilot review.
-- A check's label and guidance are texts of its key and left out. Prices are in minor units and
-- bathrooms in tenths, the scales of their columns.
pub mod Reviewed
use hostrepository.Base.{
  ℕ, zero, suc, ◌+◌, Bool, true, false, not, ◌&&◌, ◌||◌, Option, none, some, List, [], ◌∷◌, ◌++◌,
  ◌==◌, leb, ltb, length, find?, filter, any, update_where, if◌then◌else◌,
}
use hostrepository.Base.Int.{ℤ, pos, leb_ℤ}
use hostrepository.Base.Text.{Text, codes, is_empty, trim, same_text, is_low_surrogate}
use hostrepository.Base.Result.{Result, ok, err, ◌>>=◌, ◌>>◌, throw_if, or_throw}
use hostrepository.Store.{Env}
use hostrepository.Hosts.Images.{PropertyImage, count, of_property}

pub data ListingReadinessKey : Type 0 where
  basic_details guest_capacity pricing stay_policy private_location : ListingReadinessKey
  images host_agreement payout_account compliance pilot_review : ListingReadinessKey

pub record ListingReadinessCheck : Type 0 where
  pub key : ListingReadinessKey
  pub ready : Bool

pub record ListingReadinessReport : Type 0 where
  pub property_id : ℕ
  pub ready : Bool
  pub checks : List ListingReadinessCheck
  pub missing : List ListingReadinessCheck

-- The columns of a property, of its host and of its compliance items that are read.
pub record ListedProperty : Type 0 where
  pub id : ℕ
  pub host_id : ℕ
  pub name : Option Text
  pub property_type : Option Text
  pub description : Option Text
  pub city : Option Text
  pub country_code : Option Text
  pub max_guests : Option ℤ
  pub bedrooms : Option ℤ
  pub bathrooms : Option ℤ
  pub nightly_price : Option ℤ
  pub currency : Option Text
  pub min_stay_nights : Option ℤ
  pub max_stay_nights : Option ℤ
  pub cancellation_policy_id : Option ℕ
  pub check_in_time : Option Text
  pub check_out_time : Option Text
  pub address_line_1 : Option Text
  pub postal_town : Option Text
  pub postcode : Option Text
  pub has_private_location : Bool
  pub has_public_location : Bool
  pub compliance_status : Option Text
  pub pilot_review_status : Option Text
  pub pilot_reviewed_at : Option ℕ
  pub pilot_reviewed_by : Option ℕ
  pub pilot_review_note : Option Text

pub record ListingHost : Type 0 where
  pub id : ℕ
  pub host_agreement_version : Option Text
  pub host_agreement_accepted_at : Option ℕ
  pub default_policies_accepted_at : Option ℕ
  pub payout_account_status : Option Text

pub record ComplianceRow : Type 0 where
  pub property_id : ℕ
  pub applicability : Text
  pub review_status : Text
  pub owner_declared_compliant : Bool
  pub evidence_url : Option Text
  pub evidence_reference : Option Text
  pub valid_until : Option ℕ

-- `ReadinessRow`: the property, its host and the counts.
pub record ReadinessRow : Type 0 where
  pub property : ListedProperty
  pub host : ListingHost
  pub image_count : ℕ
  pub cover_count : ℕ
  pub compliance_item_count : ℕ
  pub incomplete_compliance_count : ℕ
  pub expired_compliance_count : ℕ

-- `Boolean(value)` of a text.
abbrev pub is_given : Option Text → Bool
is_given none = false
is_given (some s) = not (is_empty s)

unfoldable pub has_text : Option Text → Bool
has_text none = false
has_text (some s) = not (is_empty (trim s))

abbrev pub is_some : Option ℕ → Bool
is_some none = false
is_some (some n) = true

-- `value === "…"`
abbrev pub is_text : Option Text → Text → Bool
is_text none t = false
is_text (some s) t = same_text s t

abbrev pub number_at_least : Option ℤ → ℤ → Bool
number_at_least none minimum = false
number_at_least (some n) minimum = leb_ℤ minimum n

-- `Number(value)`, of a null 0.
abbrev pub number_of : Option ℤ → ℤ
number_of none = pos 0
number_of (some n) = n

abbrev pub check : ListingReadinessKey → Bool → ListingReadinessCheck
check key ready = record { key = key; ready = ready }

abbrev pub images_ready : ReadinessRow → Bool
images_ready row = leb 3 row.image_count && row.cover_count == 1

-- The checks before the last.
abbrev pub listing_checks : ReadinessRow → List ListingReadinessCheck
listing_checks row =
    let property = row.property in
    let min_stay = number_of property.min_stay_nights in
    let max_stay = number_of property.max_stay_nights in
    check basic_details (
      has_text property.name
      && has_text property.property_type
      && has_text property.description
      && has_text property.city
      && is_text property.country_code (codes "GB"))
    ∷ check guest_capacity (
        number_at_least property.max_guests (pos 1)
        && number_at_least property.bedrooms (pos 0)
        && number_at_least property.bathrooms (pos 0))
    ∷ check pricing
        (number_at_least property.nightly_price (pos 1) && is_text property.currency (codes "GBP"))
    ∷ check stay_policy (
        leb_ℤ (pos 1) min_stay
        && leb_ℤ max_stay (pos 365)
        && leb_ℤ min_stay max_stay
        && is_some property.cancellation_policy_id
        && is_given property.check_in_time
        && is_given property.check_out_time)
    ∷ check private_location (
        has_text property.address_line_1
        && has_text property.postal_town
        && has_text property.postcode
        && property.has_private_location
        && property.has_public_location)
    ∷ check images (images_ready row)
    ∷ check host_agreement (
        is_text row.host.host_agreement_version (codes "pilot-2026-09")
        && is_some row.host.host_agreement_accepted_at
        && is_some row.host.default_policies_accepted_at)
    ∷ check payout_account (is_text row.host.payout_account_status (codes "active"))
    ∷ check compliance (
        is_text property.compliance_status (codes "approved")
        && ltb 0 row.compliance_item_count
        && row.incomplete_compliance_count == 0
        && row.expired_compliance_count == 0)
    ∷ []

abbrev pub review_check : ReadinessRow → ListingReadinessCheck
review_check row = check pilot_review (is_text row.property.pilot_review_status (codes "approved"))

unfoldable pub build_checks : ReadinessRow → List ListingReadinessCheck
build_checks row = listing_checks row ++ (review_check row ∷ [])

-- `LENGTH` counts characters: a pair of surrogates is one.
abbrev pub char_length : Text → ℕ
char_length s = length (filter (λ c. not (is_low_surrogate c)) s)

abbrev pub is_short_reference : Option Text → Bool
is_short_reference none = true
is_short_reference (some s) = ltb (char_length s) 8

abbrev pub is_incomplete : ComplianceRow → Bool
is_incomplete item =
    not (same_text item.review_status (codes "approved"))
    || (same_text item.applicability (codes "required")
        && (not item.owner_declared_compliant
            || elim item.evidence_url [ none ↦ true | some _ ↦ false ]))
    || (same_text item.applicability (codes "not_applicable")
        && is_short_reference item.evidence_reference)

abbrev pub is_expired : Env → ComplianceRow → Bool
is_expired env item =
    same_text item.applicability (codes "required")
    && elim item.valid_until [ none ↦ false | some until ↦ ltb until env.today ]

pub data PilotReviewDecision : Type 0 where
  approved changes_required : PilotReviewDecision

-- The row of the audit log that a review writes.
pub record ReviewEntry : Type 0 where
  pub actor_user_id : ℕ
  pub object_id : ℕ
  pub decision : PilotReviewDecision
  pub note : Option Text

pub record Listings : Type 0 where
  pub properties : List ListedProperty
  pub hosts : List ListingHost
  pub property_images : List PropertyImage
  pub compliance_items : List ComplianceRow
  pub audit_log : List ReviewEntry

abbrev pub items_of : ℕ → Listings → List ComplianceRow
items_of p db = filter (λ (item : ComplianceRow). item.property_id == p) db.compliance_items

unfoldable pub readiness_row : Env → Listings → ListedProperty → ListingHost → ReadinessRow
readiness_row env db property host = record {
  property = property;
  host = host;
  image_count = count (of_property property.id) db.property_images;
  cover_count =
      count (λ (image : PropertyImage). image.property_id == property.id && image.is_cover)
        db.property_images;
  compliance_item_count = length (items_of property.id db);
  incomplete_compliance_count = length (filter is_incomplete (items_of property.id db));
  expired_compliance_count = length (filter (is_expired env) (items_of property.id db));
}

abbrev pub missing_of : List ListingReadinessCheck → List ListingReadinessCheck
missing_of = filter (λ (c : ListingReadinessCheck). not c.ready)

abbrev pub no_checks : List ListingReadinessCheck → Bool
no_checks [] = true
no_checks (c ∷ checks) = false

abbrev pub report_of : ReadinessRow → ListingReadinessReport
report_of row = record {
  property_id = row.property.id;
  ready = no_checks (missing_of (build_checks row));
  checks = build_checks row;
  missing = missing_of (build_checks row);
}

abbrev pub joined :
    Env → Listings → ListedProperty → Option ListingHost → Option ListingReadinessReport
joined env db property none = none
joined env db property (some host) = some (report_of (readiness_row env db property host))

abbrev pub with_host : Env → Listings → Option ListedProperty → Option ListingReadinessReport
with_host env db none = none
with_host env db (some property) =
    joined env db property (find? (λ (host : ListingHost). host.id == property.host_id) db.hosts)

abbrev pub has_property_id : ℕ → ListedProperty → Bool
has_property_id p property = property.id == p

unfoldable pub get_listing_readiness : Env → ℕ → Listings → Option ListingReadinessReport
get_listing_readiness env p db = with_host env db (find? (has_property_id p) db.properties)

pub data ReadinessError : Type 0 where
  property_not_found : ReadinessError
  -- `ListingReadinessError`, with what is missing.
  listing_not_ready : List ListingReadinessCheck → ReadinessError

unfoldable pub assert_listing_ready :
    Env → ℕ → Listings → Result ReadinessError ListingReadinessReport
assert_listing_ready env p db = do
  report ← or_throw (get_listing_readiness env p db) property_not_found
  throw_if (not report.ready) (listing_not_ready report.missing)
  ok report

abbrev pub is_review : ListingReadinessCheck → Bool
is_review c = elim c.key [ pilot_review ↦ true | _ ↦ false ]

abbrev pub blockers_of :
    PilotReviewDecision → List ListingReadinessCheck → List ListingReadinessCheck
blockers_of changes_required missing = []
blockers_of approved missing = filter (λ (c : ListingReadinessCheck). not (is_review c)) missing

abbrev pub decision_text : PilotReviewDecision → Text
decision_text approved = codes "approved"
decision_text changes_required = codes "changes_required"

-- `note.trim() || null`
unfoldable pub note_of : Text → Option Text
note_of note = if is_empty (trim note) then none else some (trim note)

abbrev pub reviewed : Env → ℕ → PilotReviewDecision → Text → ListedProperty → ListedProperty
reviewed env reviewer decision note property = record property {
  pilot_review_status = some (decision_text decision);
  pilot_reviewed_at = some env.now;
  pilot_reviewed_by = some reviewer;
  pilot_review_note = note_of note;
}

unfoldable pub record_review : Env → ℕ → ℕ → PilotReviewDecision → Text → Listings → Listings
record_review env p reviewer decision note db = record db {
  properties = update_where (has_property_id p) (reviewed env reviewer decision note) db.properties;
  audit_log =
      record { actor_user_id = reviewer; object_id = p; decision = decision; note = note_of note }
      ∷ db.audit_log;
}

unfoldable pub review_pilot_listing :
    Env
    → ℕ
    → ℕ
    → PilotReviewDecision
    → Text
    → Listings
    → Result ReadinessError (ListingReadinessReport × Listings)
review_pilot_listing env p reviewer decision note db = do
  throw_if (not (any (has_property_id p) db.properties)) property_not_found
  report ← or_throw (get_listing_readiness env p db) property_not_found
  let blockers = blockers_of decision report.missing
  throw_if (not (no_checks blockers)) (listing_not_ready blockers)
  let db' = record_review env p reviewer decision note db
  updated ← or_throw (get_listing_readiness env p db') property_not_found
  ok (updated, db')
