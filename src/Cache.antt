-- ===== src/Cache.antt =====
-- The decentralised KV cache, tempo/p2p_cache.py.
pub mod Ring
pub mod Tier
pub mod Store
mod Tests
