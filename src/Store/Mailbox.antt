-- ===== src/Store/Mailbox.antt =====
-- The store as mailboxes: an abstract view without tables, numbers and routes, and its promises.
pub mod Letters
pub mod Promises
pub mod Boxed
pub mod Handed
pub mod Simulates
pub mod Histories
