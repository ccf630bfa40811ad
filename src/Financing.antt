-- ===== src/Financing.antt =====
-- Profit and loss sharing (src/modules/financing).
pub mod Money
pub mod Contract
pub mod Distribution
