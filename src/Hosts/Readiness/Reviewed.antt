-- ===== src/Hosts/Readiness/Reviewed.antt =====
-- What an approval of a listing means for its publication.
use hostrepository.Base.{
  ℕ, ◌≡◌, refl, sym, ap, ◌∙◌, subst, Bool, true, false, not, Bool-cases, inl, inr, all, all_first,
  all_rest, leb, Option, none, some, List, [], ◌∷◌, ◌++◌, ◌==◌, any, find?, filter, update_where,
  if◌then◌else◌, arith,
}
use hostrepository.Base.Text.{Text}
use hostrepository.Base.Result.{
  ok, ◌>>=◌, >>=-eq-ok, throw_if, throw_if-eq-ok, or_throw, or_throw-eq-ok, ok_eq,
}
use hostrepository.Store.{Env}
use hostrepository.Hosts.Images.{count, of_property}
use hostrepository.Hosts.Images.Covered.{IsCovered}
use hostrepository.Hosts.Readiness.{
  ListingReadinessCheck, ListingReadinessReport, ListedProperty, ListingHost, Listings,
  property_not_found, listing_not_ready, PilotReviewDecision, approved, is_review, no_checks,
  blockers_of, listing_checks, images_ready, review_check, build_checks, readiness_row, report_of,
  joined, with_host, has_property_id, get_listing_readiness, assert_listing_ready, reviewed,
  record_review, review_pilot_listing,
}

not-false-true : (b : Bool) → not b ≡ false → b ≡ true
not-false-true true h = refl
not-false-true false h = cc

some_eq : {A : Type 0} {a b : A} → ◌≡◌ {A = Option A} (some a) (some b) → a ≡ b
some_eq e = cc

module _ (p : ℕ) (f : ListedProperty → ListedProperty)
    (same : (x : ListedProperty) → (f x).id ≡ x.id) where
  find_updated :
      (xs : List ListedProperty) {x : ListedProperty}
      → find? (has_property_id p) xs ≡ some x
      → find? (has_property_id p) (update_where (has_property_id p) f xs) ≡ some (f x)
  find_updated [] h = absurd (ground arith)
  find_updated (y ∷ xs) {x} h = elim (Bool-cases (has_property_id p y)) [
    | inl e ↦
        let here : y ≡ x = ground arith in
        let still : has_property_id p (f y) ≡ true = ap (λ (n : ℕ). n == p) (same y) ∙ e in
        rw e (rw still (ap (λ (z : ListedProperty). some (f z)) here))
    | inr e ↦ rw e (rw e (find_updated xs {x = x} (rw e at h)))
  ]

  find_other :
      (q : ℕ) (xs : List ListedProperty)
      → (q == p) ≡ false
      → find? (has_property_id q) (update_where (has_property_id p) f xs)
        ≡ find? (has_property_id q) xs
  find_other q [] h = refl
  find_other q (y ∷ xs) h = elim (Bool-cases (has_property_id p y)) [
    | inl e ↦
        let apart : has_property_id q y ≡ false = ground arith in
        let still : has_property_id q (f y) ≡ false = ap (λ (n : ℕ). n == q) (same y) ∙ apart in
        rw e (rw still (rw apart (find_other q xs h)))
    | inr e ↦ rw e (
        ap (λ (o : Option ListedProperty). if has_property_id q y then some y else o)
          (find_other q xs h))
  ]

module _ (test : ListingReadinessCheck → Bool) (c : ListingReadinessCheck)
    (checks : List ListingReadinessCheck) where
  filter_kept : test c ≡ true → filter test (c ∷ checks) ≡ c ∷ filter test checks
  filter_kept h = rw h refl

  filter_dropped : test c ≡ false → filter test (c ∷ checks) ≡ filter test checks
  filter_dropped h = rw h refl

abbrev is_missing : ListingReadinessCheck → Bool
is_missing c = not c.ready

abbrev is_other : ListingReadinessCheck → Bool
is_other c = not (is_review c)

-- Where only the review is missing, nothing is once the review is there.
no_checks_missing :
    (checks : List ListingReadinessCheck) (before after : ListingReadinessCheck)
    → all is_other checks ≡ true
    → no_checks (filter is_other (filter is_missing (checks ++ (before ∷ [])))) ≡ true
    → is_missing after ≡ false
    → no_checks (filter is_missing (checks ++ (after ∷ []))) ≡ true
no_checks_missing [] before after h k ready =
    ap no_checks (filter_dropped is_missing after [] ready)
no_checks_missing (c ∷ checks) before after h k ready = elim (Bool-cases (is_missing c)) [
  | inr e ↦
      let fewer = filter_dropped is_missing c (checks ++ (before ∷ [])) e in
      ap no_checks (filter_dropped is_missing c (checks ++ (after ∷ [])) e)
      ∙ no_checks_missing checks before after (all_rest is_other c checks h)
          (sym (ap (λ (l : List ListingReadinessCheck). no_checks (filter is_other l)) fewer) ∙ k)
          ready
  | inl e ↦
      let rest = filter is_missing (checks ++ (before ∷ [])) in
      let blocked : no_checks (filter is_other (filter is_missing ((c ∷ checks) ++ (before ∷ []))))
          ≡ false =
        ap (λ (l : List ListingReadinessCheck). no_checks (filter is_other l))
          (filter_kept is_missing c (checks ++ (before ∷ [])) e)
        ∙ ap no_checks (filter_kept is_other c rest (all_first is_other c checks h)) in
      cc
]

joined-some :
    (env : Env) (db : Listings) (property : ListedProperty) (found : Option ListingHost)
    {report : ListingReadinessReport}
    → joined env db property found ≡ some report
    → (host : ListingHost) × (found ≡ some host)
      × (report_of (readiness_row env db property host) ≡ report)
joined-some env db property none h = cc
joined-some env db property (some host) h = (host, refl, some_eq h)

with_host-some :
    (env : Env) (db : Listings) (found : Option ListedProperty) {report : ListingReadinessReport}
    → with_host env db found ≡ some report
    → (property : ListedProperty) × (host : ListingHost) × (found ≡ some property)
      × (find? (λ (h : ListingHost). h.id == property.host_id) db.hosts ≡ some host)
      × (report_of (readiness_row env db property host) ≡ report)
with_host-some env db none h = cc
with_host-some env db (some property) h =
    let (host, listed, made) =
      joined-some env db property
        (find? (λ (host : ListingHost). host.id == property.host_id) db.hosts) h in
    (property, host, refl, listed, made)

module _ (env : Env) (p reviewer : ℕ) (decision : PilotReviewDecision) (note : Text)
    (db : Listings) where
  abbrev after_review : Listings
  after_review = record_review env p reviewer decision note db

  -- The report of a property after its review: only the review's own check has changed.
  readiness_reviewed :
      {report : ListingReadinessReport}
      → get_listing_readiness env p db ≡ some report
      → (property : ListedProperty) × (host : ListingHost) × (report
          ≡ report_of (readiness_row env db property host))
        × (get_listing_readiness env p after_review
            ≡ some (
                report_of
                  (readiness_row env db (reviewed env reviewer decision note property) host)))
  unfolding get_listing_readiness record_review readiness_row
  readiness_reviewed h =
      let (property, host, found, listed, made) =
        with_host-some env db (find? (has_property_id p) db.properties) h in
      let change = reviewed env reviewer decision note in
      (
        property,
        host,
        sym made,
        ap (with_host env after_review) (find_updated p change (λ x. refl) db.properties found)
            ∙ ap (joined env after_review (change property)) listed,
      )

  readiness_other :
      (q : ℕ)
      → (q == p) ≡ false
      → get_listing_readiness env q after_review ≡ get_listing_readiness env q db
  unfolding get_listing_readiness record_review readiness_row
  readiness_other q other =
      ap (with_host env db)
        (find_other p (reviewed env reviewer decision note) (λ x. refl) q db.properties other)

approved_ready :
    (env : Env) (reviewer : ℕ) (note : Text) (db : Listings) (property : ListedProperty)
    (host : ListingHost)
    → no_checks (blockers_of approved (report_of (readiness_row env db property host)).missing)
      ≡ true
    → (report_of (readiness_row env db (reviewed env reviewer approved note property) host)).ready
      ≡ true
unfolding build_checks readiness_row
approved_ready env reviewer note db property host h =
    let row = readiness_row env db property host in
    let row' = readiness_row env db (reviewed env reviewer approved note property) host in
    no_checks_missing (listing_checks row) (review_check row) (review_check row') refl h refl

assert-eq-ok :
    (env : Env) (p : ℕ) (db : Listings) (report : ListingReadinessReport)
    → get_listing_readiness env p db ≡ some report
    → report.ready ≡ true
    → assert_listing_ready env p db ≡ ok report
unfolding assert_listing_ready
assert-eq-ok env p db report found ready =
    ap
      (λ (o : Option ListingReadinessReport).
        or_throw o property_not_found >>= λ (r : ListingReadinessReport).
        throw_if (not r.ready) (listing_not_ready r.missing) >>= λ done. ok r)
      found
    ∙ ap (λ (b : Bool). throw_if (not b) (listing_not_ready report.missing) >>= λ done. ok report)
        ready

-- An approval that succeeded leaves a listing that may be published, and the readiness of no other
-- listing changes.
pub review_pilot_listing_ready :
    (env : Env) (p reviewer : ℕ) (note : Text) (db : Listings) {report : ListingReadinessReport}
    {db' : Listings}
    → review_pilot_listing env p reviewer approved note db ≡ ok (report, db')
    → (assert_listing_ready env p db' ≡ ok report)
      × ((q : ℕ)
          → (q == p) ≡ false
          → get_listing_readiness env q db' ≡ get_listing_readiness env q db)
unfolding review_pilot_listing assert_listing_ready
review_pilot_listing_ready env p reviewer note db {report} {db'} h =
    let (u, present, h0) =
      >>=-eq-ok (throw_if (not (any (has_property_id p) db.properties)) property_not_found) _ h in
    let (old, got, h1) =
      >>=-eq-ok (or_throw (get_listing_readiness env p db) property_not_found) _ h0 in
    let blockers = blockers_of approved old.missing in
    let (v, clear, h2) =
      >>=-eq-ok (throw_if (not (no_checks blockers)) (listing_not_ready blockers)) _ h1 in
    let after = record_review env p reviewer approved note db in
    let (new, again, h3) =
      >>=-eq-ok (or_throw (get_listing_readiness env p after) property_not_found) _ h2 in
    let (property, host, was, is) =
      readiness_reviewed env p reviewer approved note db
        (or_throw-eq-ok (get_listing_readiness env p db) property_not_found got) in
    let unblocked =
      subst
        (λ (r : ListingReadinessReport). not (no_checks (blockers_of approved r.missing)) ≡ false)
        was (throw_if-eq-ok (not (no_checks blockers)) (listing_not_ready blockers) clear) in
    let ready = approved_ready env reviewer note db property host (not-false-true _ unblocked) in
    let found = or_throw-eq-ok (get_listing_readiness env p after) property_not_found again in
    let same = some_eq (sym is ∙ found) in
    let there : assert_listing_ready env p after ≡ ok new =
      assert-eq-ok env p after new found
        (subst (λ (r : ListingReadinessReport). r.ready ≡ true) same ready) in
    subst
      (λ (made : ListingReadinessReport × Listings).
        (assert_listing_ready env p made.1 ≡ ok made.0)
        × ((q : ℕ)
            → (q == p) ≡ false
            → get_listing_readiness env q made.1 ≡ get_listing_readiness env q db))
      (ok_eq h3) (there, readiness_other env p reviewer approved note db)

-- While each property that has images has one cover, the check of the images asks for three images and
-- nothing else.
pub images_check_covered :
    (env : Env) (db : Listings) (property : ListedProperty) (host : ListingHost)
    → IsCovered db.property_images
    → images_ready (readiness_row env db property host)
      ≡ leb 3 (count (of_property property.id) db.property_images)
unfolding readiness_row
images_check_covered env db property host h = let one = h.covers property.id in ground arith
