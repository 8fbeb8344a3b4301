-- ===== src/DmsIngestion.antt =====
-- apps/dms_ingestion: an uploaded file on its way to a document.
pub mod Model
pub mod Checks
pub mod Processors
pub mod Pipeline
mod Tests
