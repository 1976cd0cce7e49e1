-- ===== src/Login.antt =====
-- Who may connect and log in: the limit on connection attempts, and the waiting list.
pub mod Ban
pub mod WaitList
mod Tests
