-- ===== src/DmsMetadata.antt =====
-- apps/dms_metadata: the values of a document's metadata, checked against the definitions of its
-- document type.
pub mod Values
pub mod Validators
pub mod Schemas
pub mod Crashes
pub mod Types
pub mod Rules
pub mod Service
mod Tests
