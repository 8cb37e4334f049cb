-- ===== src/Diode.antt =====
-- The diode relay of internal/diode/relay.go: signed frames, attachments, the exporter and the importer.
mod Tests
pub mod Frame
pub mod Attachments
pub mod Importer
pub mod Exporter
pub mod Ledger
pub mod Setup
