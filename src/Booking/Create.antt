-- ===== src/Booking/Create.antt =====
-- createBooking of lib/booking/createBooking.ts. The advisory lock on the property makes bookings of
-- one property follow one another, so the transaction is one function; an error gives no new
-- database, as the rollback does.
use Prim.Native.String.{String}
use text.Mathlib.Text.{◌==◌ as str_eq}
use hostrepository.Base.{
  ℕ, ◌+◌, ◌*◌, ◌==◌, Bool, true, false, not, ◌&&◌, Option, none, some, List, [], ◌∷◌, ltb, leb,
  if◌then◌else◌, find?, any,
}
use hostrepository.Base.Int.{ℤ, pos, ltb_ℤ, leb_ℤ}
use hostrepository.Base.Result.{Result, ok, err, ◌>>=◌, ◌>>◌, require, throw_if, or_throw}
use hostrepository.Store.{
  Db, Env, Block, Blocks, BlockStatus, booking, Booking, Property, PolicyRow, FeeConfigRow,
  ComplianceItem, Applicability, destination_charge_legacy, separate_charges_delayed_v1,
}
use hostrepository.Booking.Types.{
  JsMath, FeeConfig, PropertyForPricing, PriceBreakdown, CancellationTier, pending_payment,
  BookingError, invalid_date_range, invalid_guests, property_not_found, property_not_available,
  too_many_guests, below_min_stay, above_max_stay, dates_unavailable, no_active_fee_config,
}
use hostrepository.Booking.Price.{nights_between, calculate_price}
use hostrepository.Booking.Cancellation.{moderate}
use hostrepository.Calendar.Availability.{enumerate_dates, set_block}
use hostrepository.Payments.Timing.{decide_charge_timing}

pub record CreateBookingInput : Type 0 where
  pub property_id : ℕ
  pub guest_id : ℕ
  pub check_in : ℕ
  pub check_out : ℕ
  pub guests : ℤ
  pub guest_name : String
  pub guest_email : String
  pub guest_phone : Option String
  pub idempotency_key : String

-- What `createBooking` returns: the row, and the price if the booking is new.
pub record Created : Type 0 where
  pub row : Booking
  pub breakdown : Option PriceBreakdown

-- `SELECT … FROM fee_configs WHERE active = TRUE ORDER BY effective_from DESC LIMIT 1`
abbrev pub later_of : FeeConfigRow → Option FeeConfigRow → FeeConfigRow
later_of row none = row
later_of row (some other) = if leb other.effective_from row.effective_from then row else other

unfoldable pub latest_active : List FeeConfigRow → Option FeeConfigRow
latest_active [] = none
latest_active (row ∷ rows) =
    let rest = latest_active rows in if row.active then some (later_of row rest) else rest

unfoldable pub get_active_fee_config : List FeeConfigRow → Result BookingError FeeConfig
get_active_fee_config rows = do
  row ← or_throw (latest_active rows) no_active_fee_config
  ok row.config

-- The subquery `has_expired_evidence`.
abbrev pub expired : Env → ComplianceItem → Bool
expired env item = elim item.applicability [
  | Applicability.required ↦ elim item.valid_until [ none ↦ false | some day ↦ ltb day env.today ]
  | Applicability.not_applicable ↦ false
]

abbrev pub has_expired_evidence : Env → ℕ → List ComplianceItem → Bool
has_expired_evidence env p items =
    any (λ (item : ComplianceItem). item.property_id == p && expired env item) items

abbrev pub is_bookable : Env → Property → List ComplianceItem → Bool
is_bookable env p items =
    str_eq p.status "published"
    && str_eq p.compliance_status "approved"
    && not (has_expired_evidence env p.id items)

-- `r.status !== "available"`; a date with no row is free.
abbrev pub is_unavailable : Option Block → Bool
is_unavailable none = false
is_unavailable (some r) = elim r.status [ BlockStatus.available ↦ false | _ ↦ true ]

abbrev pub booked_block : Block
booked_block = record { status = BlockStatus.booked; source = booking }

-- `INSERT … ON CONFLICT DO UPDATE SET status = 'booked', source = 'booking'` for each date
unfoldable pub book_dates : ℕ → List ℕ → Blocks → Blocks
book_dates p [] b = b
book_dates p (d ∷ ds) b = book_dates p ds (set_block b p d (some booked_block))

abbrev pub pricing_of : JsMath → Property → PropertyForPricing
pricing_of js p = record {
  nightly_price_minor = js.to_minor p.nightly_price;
  cleaning_fee_minor = js.to_minor p.cleaning_fee;
  currency = p.currency;
  accommodation_vat_rate = p.accommodation_vat_rate;
  cleaning_vat_rate = p.cleaning_vat_rate;
}

-- The moderate policy where the property names none that exists.
abbrev pub policy_rules : Option ℕ → List PolicyRow → List CancellationTier
policy_rules none rows = moderate
policy_rules (some id) rows = elim (find? (λ (row : PolicyRow). row.id == id) rows) [
  | none ↦ moderate
  | some row ↦ row.rules
]

abbrev pub none_unavailable : Option ℕ → Result BookingError (Unit {0})
none_unavailable none = ok tt
none_unavailable (some date) = err (dates_unavailable date)

module _ (js : JsMath) (env : Env) (delayed_flow : Bool) (input : CreateBookingInput) where
  unfoldable pub new_row : Property → List PolicyRow → Booking
  new_row p policies = record {
    id = env.fresh_id;
    property_id = input.property_id;
    guest_id = input.guest_id;
    host_id = p.host_id;
    check_in = input.check_in;
    check_out = input.check_out;
    guests = input.guests;
    status = pending_payment;
    cancellation_policy_snapshot = policy_rules p.cancellation_policy_id policies;
    idempotency_key = input.idempotency_key;
    hold_expires_at = some (env.now + 15 * 60000);
    guest_name = input.guest_name;
    guest_email = input.guest_email;
    guest_phone = input.guest_phone;
    payment_flow_version =
        if delayed_flow then separate_charges_delayed_v1 else destination_charge_legacy;
    scheduled_charge_date =
        if delayed_flow
        then (decide_charge_timing input.check_in env.now).scheduled_charge_date
        else none;
    archived_at = none;
    next_retry_at = none;
    grace_period_started_at = none;
    stripe_customer_id = none;
    stripe_payment_method_id = none;
    tax_configured = false;
  }

  -- The guards on the property, the guests and the length of the stay.
  unfoldable pub check_stay : Property → List ComplianceItem → Result BookingError (Unit {0})
  check_stay p items = do
    throw_if (not (is_bookable env p items)) property_not_available
    throw_if (ltb_ℤ p.max_guests input.guests) too_many_guests
    throw_if (ltb_ℤ (nights_between input.check_in input.check_out) p.min_stay_nights)
        below_min_stay
    throw_if (ltb_ℤ p.max_stay_nights (nights_between input.check_in input.check_out))
        above_max_stay

  -- From the lock on: the dates are read, taken, priced, and the rows are inserted.
  unfoldable pub insert_booking : Property → Db → Result BookingError (Created × Db)
  insert_booking p db = do
    let dates = enumerate_dates input.check_in input.check_out
    none_unavailable (find? (λ (d : ℕ). is_unavailable (db.blocks input.property_id d)) dates)
    let blocks' = book_dates input.property_id dates db.blocks
    fee ← get_active_fee_config db.fee_configs
    breakdown ←
        calculate_price js (pricing_of js p) (nights_between input.check_in input.check_out) fee
    let row = new_row p db.policies
    ok (
      record { row = row; breakdown = some breakdown },
      record db {
        blocks = blocks';
        bookings = row ∷ db.bookings;
        prices = record { booking_id = row.id; breakdown = breakdown } ∷ db.prices;
      },
    )

  unfoldable pub create_new : Db → Result BookingError (Created × Db)
  create_new db = do
    p ←
        or_throw (find? (λ (p : Property). p.id == input.property_id) db.properties)
          property_not_found
    check_stay p db.compliance_items
    insert_booking p db

  -- The idempotency check comes before everything that reads the property.
  unfoldable pub create_booking : Db → Result BookingError (Created × Db)
  create_booking db = do
    require (leb_ℤ (pos 1) (nights_between input.check_in input.check_out)) invalid_date_range
    require (leb_ℤ (pos 1) input.guests) invalid_guests
    elim (find? (λ (b : Booking). str_eq b.idempotency_key input.idempotency_key) db.bookings) [
      | some row ↦ ok (record { row = row; breakdown = none }, db)
      | none ↦ create_new db
    ]
