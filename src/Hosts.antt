-- ===== src/Hosts.antt =====
-- lib/hosts: what a host changes about a property.
pub mod Availability
pub mod Images
pub mod Readiness
