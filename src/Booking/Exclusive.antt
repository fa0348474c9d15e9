-- ===== src/Booking/Exclusive.antt =====
-- No two bookings hold one night: what the availability table and the bookings agree on, and that
-- every operation keeps it.
pub mod Creating
pub mod Confirming
pub mod Releasing
pub mod Steps
use hostrepository.Base.{ℕ, ◌≡◌, ◌≢◌, Bool, true, false, some, within, In}
use hostrepository.Store.{Db, Booking}
use hostrepository.Booking.Types.{BookingStatus, pending_payment, confirmed}
use hostrepository.Booking.Create.{booked_block}

-- A booking that is paid or may still be paid holds its dates.
abbrev pub holds : BookingStatus → Bool
holds pending_payment = true
holds confirmed = true
holds _ = false

abbrev pub Takes : Booking → ℕ → Type 0
Takes b d = (holds b.status ≡ true) × (within b.check_in b.check_out d ≡ true)

-- Every night that a booking holds is marked as booked in the availability table.
abbrev pub IsCovered : Db → Type 0
IsCovered db =
    (b : Booking) (d : ℕ)
    → In b db.bookings
    → Takes b d
    → db.blocks b.property_id d ≡ some booked_block

-- Two bookings of one property never hold one night.
abbrev pub IsExclusive : Db → Type 0
IsExclusive db =
    (b c : Booking) (d : ℕ)
    → In b db.bookings
    → In c db.bookings
    → b.id ≢ c.id
    → b.property_id ≡ c.property_id
    → Takes b d
    → ¬ Takes c d

abbrev pub IsConsistent : Db → Type 0
IsConsistent db = IsCovered db × IsExclusive db
