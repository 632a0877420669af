-- ===== src/Cache.antt =====
-- fabric_shortcut_proxy/cache/lru_cache.py: the TTL and size bounded cache, and the tiers of
-- Parquet serving that stand on it.
pub mod Lru
pub mod Tiers
