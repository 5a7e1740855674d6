-- ===== src/Wc.antt =====
-- wc/wc.c: the counting of lines and words in a buffer.
pub mod Count
mod Tests
