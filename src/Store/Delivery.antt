-- ===== src/Store/Delivery.antt =====
-- What the statements of `pull` do to a queue, by recursion on the queue.
pub mod Chosen
pub mod Prefix
pub mod Budget
