-- ===== src/Grep.antt =====
-- grep/grep.c: growing arrays, and the search for a string in the rows of a file.
pub mod Vector
pub mod Search
mod Tests
