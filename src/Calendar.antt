-- ===== src/Calendar.antt =====
-- lib/calendar: imported calendars and the nights that they block.
pub mod Addresses
pub mod Availability
pub mod Dates
pub mod Export
pub mod Feeds
pub mod Fetch
pub mod Ical
pub mod Lines
pub mod Sync
