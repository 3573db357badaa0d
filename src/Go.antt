-- ===== src/Go.antt =====
-- The functions of Go's standard library that the program computes with.
pub mod Strings
pub mod Strconv
pub mod Base64
pub mod Time
pub mod Url
pub mod Html
pub mod Dates
pub mod Json
pub mod Substrings
