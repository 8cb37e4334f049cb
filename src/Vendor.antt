-- ===== src/Vendor.antt =====
-- scripts/vendorcheck: the release-scoped disposition of the vendor's tool.
pub mod Values
pub mod Report
pub mod Check
mod Tests
