-- ===== src/Tests.antt =====
-- Runs of the model on concrete inputs, and each theorem at an input that meets its hypotheses.
mod Decimal
mod Database
mod Transactions
mod Queries
mod Parsing
mod Processing
mod Telegram
mod Shared
mod Workers
mod Scripts
mod Schema
mod Settings
mod SmokeTest
mod IsoDates
mod Validation
