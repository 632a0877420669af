-- ===== src/Artifacts.antt =====
-- fabric_shortcut_proxy/runtime/artifact_store.py: the object store, and the compare-and-swap
-- register that the coordination records stand on.
pub mod Register
pub mod Keys
pub mod Memory
