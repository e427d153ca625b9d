-- ===== src/Auth.antt =====
-- mdrj/auth.py, the users of mdrj/storage.py, and what mdrj/node.py does with them.
pub mod Passwords
pub mod Sessions
pub mod Users
pub mod Accounts
pub mod Access
