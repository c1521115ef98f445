-- ===== src/Engine.antt =====
-- scoped_access/engine.py, in its own order: scope resolution, the permission decision, roles.
-- The functions are modelled as they run with no request cache active.
pub mod Scope
pub mod Decision
pub mod Roles
pub mod Filters
pub mod Visibility
