-- ===== src/Rcu.antt =====
-- The list of books of ksync-rcu/list_rcu.c, whose nodes are replaced under RCU.
pub mod Books
pub mod Shelf
pub mod Refine
pub mod Race
mod Tests
