-- ===== src/Values.antt =====
-- The values of the program's language that its data reach: numbers and parsed JSON.
pub mod Number
pub mod Json
