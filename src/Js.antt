-- ===== src/Js.antt =====
-- What the program takes from JavaScript itself: numbers and dates.
pub mod Calendar
pub mod Dates
pub mod Integers
pub mod Numbers
