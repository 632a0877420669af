-- ===== src/Security.antt =====
-- Who may do what: src/fabric_shortcut_proxy/security.
pub mod Authorization
pub mod Directory
