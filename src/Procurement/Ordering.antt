-- ===== src/Procurement/Ordering.antt =====
-- application/create-procurement-order.ts and application/acknowledge-procurement-order.ts.
pub mod Create
pub mod Acknowledge
