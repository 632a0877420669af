-- ===== src/Planner.antt =====
-- The planning of splits: src/fabric_shortcut_proxy/planner.
pub mod Ranges
pub mod Shards
