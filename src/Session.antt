-- ===== src/Session.antt =====
-- session/standalone/shm/arena_lend: what a session keeps of the objects lent to and borrowed from
-- the other process.
pub mod Borrower
pub mod Lender
pub mod Registry
pub mod Setup
pub mod Server
pub mod Data
pub mod Protocol
