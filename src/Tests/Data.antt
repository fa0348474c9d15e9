-- ===== src/Tests/Data.antt =====
-- A small database and concrete arguments, for the tests.
use hostrepository.Base.{◌*◌, true, none, some, [], ◌∷◌}
use hostrepository.Base.Int.{pos, ◌*ℤ◌}
use hostrepository.Base.Text.{codes}
use hostrepository.Base.Round.{round_div}
use hostrepository.Base.Result.{Result, ok, err}
use hostrepository.Store.{Db, Env, Property, Feed, empty_db, never}
use hostrepository.Booking.Types.{JsMath, FeeConfig, PropertyForPricing}
use hostrepository.Booking.Create.{CreateBookingInput}
use hostrepository.Calendar.Feeds.{CalendarEvent}

-- A double stands for a number of ten thousandths, and a price for its pence.
abbrev pub js : JsMath
js = record { round_product = λ x r. round_div (x *ℤ pos r) 10000; to_minor = λ x. pos x }

abbrev pub launch_fee : FeeConfig
launch_fee = record {
  version = "host-15-inclusive-v1";
  guest_service_fee_rate = 0;
  host_commission_rate = 1500;
  tax_rate = 0;
}

abbrev pub pricing : PropertyForPricing
pricing = record {
  nightly_price_minor = pos 10000;
  cleaning_fee_minor = pos 3000;
  currency = "GBP";
  accommodation_vat_rate = some 2000;
  cleaning_vat_rate = some 2000;
}

abbrev pub cottage : Property
cottage = record {
  id = 7;
  host_id = 70;
  currency = "GBP";
  nightly_price = 10000;
  cleaning_fee = 3000;
  accommodation_vat_rate = some 2000;
  cleaning_vat_rate = some 2000;
  max_guests = pos 4;
  min_stay_nights = pos 1;
  max_stay_nights = pos 30;
  cancellation_policy_id = none;
  status = "published";
  compliance_status = "approved";
}

abbrev pub feed : Feed
feed = record {
  id = 1;
  property_id = 7;
  name = "Airbnb";
  feed_url = "https://example.com/calendar.ics";
  is_active = true;
  last_sync_status = never;
  last_sync_started_at = none;
  last_sync_completed_at = none;
  last_successful_sync_at = none;
  last_error = none;
  remote_etag = none;
  remote_last_modified = none;
}

abbrev pub db : Db
db = record empty_db {
  properties = cottage ∷ [];
  fee_configs = record { config = launch_fee; effective_from = 20000; active = true } ∷ [];
  feeds = feed ∷ [];
}

abbrev pub env : Env
env = record { now = 20000 * 86400000; today = 20000; fresh_id = 500 }

abbrev pub later : Env
later = record { now = 20001 * 86400000; today = 20001; fresh_id = 501 }

-- Three nights, from day 20010 to day 20013.
abbrev pub stay : CreateBookingInput
stay = record {
  property_id = 7;
  guest_id = 900;
  check_in = 20010;
  check_out = 20013;
  guests = pos 2;
  guest_name = "Ada";
  guest_email = "ada@example.com";
  guest_phone = none;
  idempotency_key = "k1";
}

-- The two nights after it.
abbrev pub next_stay : CreateBookingInput
next_stay = record stay { check_in = 20013; check_out = 20015; idempotency_key = "k2" }

abbrev pub reservation : CalendarEvent
reservation = record {
  event_key = codes "r1";
  external_uid = codes "r1@airbnb";
  starts_on = 20020;
  ends_on = 20022;
  summary = none;
}

abbrev pub value_or : {E A : Type 0} → A → Result E A → A
value_or a (ok b) = b
value_or a (err e) = a
