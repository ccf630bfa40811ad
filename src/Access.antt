-- ===== src/Access.antt =====
-- Roles of users in organizations (src/modules/access-control).
pub mod Protected
pub mod Assignments
