-- ===== src/FakeIp.antt =====
-- src/fakeip.rs: synthetic addresses handed out for names. The allocation space of one address family,
-- the pool of the two families, and what keeps a space right.
pub mod Space
pub mod Agrees
mod Rebuild
pub mod Keeps
pub mod Cursor
pub mod Allocates
pub mod Pool
pub mod Runs
pub mod Hands
pub mod Serves
pub mod Reached
pub mod Served
mod Tests
