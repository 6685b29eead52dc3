-- ===== src/Parsing.antt =====
-- src/processing/parsing.service.ts: the fields of a receipt, read from its OCR text.
pub mod Patterns
pub mod Dates
pub mod Fields
pub mod Service
