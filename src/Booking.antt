-- ===== src/Booking.antt =====
-- lib/booking: prices, cancellation terms and the life of a booking.
pub mod Types
pub mod Price
pub mod Cancellation
pub mod Create
pub mod Release
pub mod Exclusive
pub mod Groups
