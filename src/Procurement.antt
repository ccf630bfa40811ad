-- ===== src/Procurement.antt =====
-- Purchase orders, delivery evidence and eligibility (src/modules/procurement).
pub mod Order
pub mod Invoice
pub mod SourceCase
pub mod Closeout
pub mod Evidence
pub mod Eligibility
pub mod Actor
pub mod Ordering
pub mod Delivery
pub mod Invoicing
pub mod Sourcing
pub mod Closing
pub mod Books
