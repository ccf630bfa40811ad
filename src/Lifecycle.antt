-- ===== src/Lifecycle.antt =====
-- Procure-to-pay lifecycle events (src/modules/procurement): the event, its builder, the
-- append-only log, and the recording that the other services call.
pub mod Event
pub mod Log
pub mod Builder
pub mod Source
pub mod Recording
pub mod Integrity
pub mod Stages
