-- ===== src/Tests/TiersTests.antt =====
-- The tiers of src/fabric_shortcut_proxy/cache/lru_cache.py at concrete inputs.
use fabric_shortcut_proxy.Prelude.{true, false, [], ◌∷◌, some, ◌≡◌, refl}
use fabric_shortcut_proxy.Cache.Lru.{Lru}
use fabric_shortcut_proxy.Cache.Tiers.{Site, Tiers, get_parquet, pin_parquet}
use fabric_shortcut_proxy.Cache.Tiers.Serving.{read, drop, store, run, pinned_is_served}

abbrev site : Site
site = record {
  disk_cache = true;
  store_serving = true;
  disk_path = λ key. key;
  read_fails = false;
  write_fails = false;
  remove_fails = false;
  store_fails = false;
}

abbrev cache : Lru
cache = record {
  max_bytes = 3;
  ttl = 10;
  store = ("a", record { payload = 1 ∷ 2 ∷ []; expiry = 9 }) ∷ [];
  current_bytes = 2;
}

abbrev tiers : Tiers
tiers = record {
  pinned = [];
  metadata = cache;
  parquet = cache;
  disk = ("b", 5 ∷ []) ∷ [];
  artifacts = ("c", 6 ∷ []) ∷ [];
  events = [];
}

pinned_is_served_example :
    (get_parquet site 90 "p" (
      run site
        (read 20 "p" ∷ store 21 "q" (1 ∷ 2 ∷ []) ∷ drop "q" ∷ [])
        (pin_parquet site "p" (7 ∷ []) tiers))).1
    ≡ some (7 ∷ [])
pinned_is_served_example =
    pinned_is_served site 90 "p" (7 ∷ []) (read 20 "p" ∷ store 21 "q" (1 ∷ 2 ∷ []) ∷ drop "q" ∷ [])
      tiers refl
