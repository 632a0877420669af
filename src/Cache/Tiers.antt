-- ===== src/Cache/Tiers.antt =====
-- The tiers of Parquet serving: pinned splits, the memory cache, the disk cache, the artifact
-- store. `Site` holds what does not change during a call: the configuration, the file name of a
-- key (SHA-256), and which accesses raise; every such exception is caught by the code.
pub mod Serving
use fabric_shortcut_proxy.Prelude.{
  ℕ, String, Bool, true, false, not, ◌&&◌, ◌||◌, Option, none, some, List, [], ◌∷◌, ◌++◌,
  if◌then◌else◌, length, is_some, sum_by,
}
use fabric_shortcut_proxy.Dict.{Dict, lookup, insert, remove}
use fabric_shortcut_proxy.Artifacts.Memory
use fabric_shortcut_proxy.Artifacts.Memory.{Result, ok, raise}
use fabric_shortcut_proxy.Cache.Lru
use fabric_shortcut_proxy.Cache.Lru.{Bytes, Lru, evict}

pub record Site : Type 0 where
  pub disk_cache : Bool
  pub store_serving : Bool
  pub disk_path : String → String
  pub read_fails : Bool
  pub write_fails : Bool
  pub remove_fails : Bool
  pub store_fails : Bool

pub record Tiers : Type 0 where
  pub pinned : Dict Bytes
  pub metadata : Lru
  pub parquet : Lru
  pub disk : Dict Bytes
  pub artifacts : Dict Bytes
  -- the calls of `metrics.record_cache`, newest first
  pub events : List (String × Bool)

abbrev pub or_else : Option Bytes → Option Bytes → Option Bytes
or_else (some b) other = some b
or_else none other = other

abbrev pub from_result : Result Bytes → Option Bytes
from_result (ok b) = some b
from_result (raise _) = none

module _ (site : Site) where
  unfoldable pub disk_read : String → Tiers → Option Bytes
  disk_read key t =
      if site.disk_cache && not site.read_fails then lookup (site.disk_path key) t.disk else none

  unfoldable pub disk_write : String → Bytes → Tiers → Tiers
  disk_write key payload t =
      if site.disk_cache && not site.write_fails
      then record t { disk = insert (site.disk_path key) payload t.disk }
      else t

  unfoldable pub store_read : String → Tiers → Option Bytes
  store_read key t =
      if site.store_serving && not site.store_fails
      then from_result (Memory.get key t.artifacts)
      else none

  unfoldable pub store_write : String → Bytes → Tiers → Tiers
  store_write key payload t =
      if site.store_serving && not site.store_fails
      then record t { artifacts = (Memory.put length key payload t.artifacts).0 }
      else t

  unfoldable pub store_delete : String → Tiers → Tiers
  store_delete key t =
      if site.store_serving && not site.store_fails
      then record t { artifacts = (Memory.delete key t.artifacts).0 }
      else t

  unfoldable pub note : String → Bool → Tiers → Tiers
  note kind hit t = record t { events = (kind, hit) ∷ t.events }

  unfoldable pub get_metadata : ℕ → String → Tiers → Tiers × Option Bytes
  unfolding note
  get_metadata now key t =
      let (m, found) = Lru.get now key t.metadata in
      (note "metadata" (is_some found) (record t { metadata = m }), found)

  unfoldable pub put_metadata : ℕ → String → Bytes → Tiers → Tiers
  put_metadata now key payload t = record t { metadata = Lru.put now key payload t.metadata }

  -- `_parquet_cache.put(key, …)` of what a slower tier returned.
  promote : ℕ → String → Bytes → Tiers → Tiers
  promote now key payload t = record t { parquet = Lru.put now key payload t.parquet }

  from_store : ℕ → String → Option Bytes → Tiers → Tiers × Option Bytes
  unfolding promote
  from_store now key none t = (t, none)
  from_store now key (some b) t = (promote now key b t, some b)

  from_disk : ℕ → String → Option Bytes → Tiers → Tiers × Option Bytes
  unfolding from_store promote note store_read
  from_disk now key (some b) t =
      (promote now key b (note "parquet_disk" true (note "parquet" false t)), some b)
  from_disk now key none t =
      let t1 = note "parquet_disk" false (note "parquet" false t) in
      from_store now key (store_read key t1) t1

  from_memory : ℕ → String → Option Bytes → Tiers → Tiers × Option Bytes
  unfolding from_disk note disk_read
  from_memory now key (some b) t = (note "parquet" true t, some b)
  from_memory now key none t = from_disk now key (disk_read key t) t

  from_pins : ℕ → String → Option Bytes → Tiers → Tiers × Option Bytes
  unfolding from_memory note
  from_pins now key (some b) t = (note "parquet" true t, some b)
  from_pins now key none t =
      let (m, found) = Lru.get now key t.parquet in
      from_memory now key found (record t { parquet = m })

  unfoldable pub get_parquet : ℕ → String → Tiers → Tiers × Option Bytes
  unfolding from_pins
  get_parquet now key t = from_pins now key (lookup key t.pinned) t

  -- The memory tier may drop an expired entry here too.
  peek_from : ℕ → String → Option Bytes → Tiers → Tiers × Option Bytes
  unfolding disk_read store_read
  peek_from now key (some b) t = (t, some b)
  peek_from now key none t =
      let (m, found) = Lru.get now key t.parquet in
      let t1 = record t { parquet = m } in
      (t1, or_else found (or_else (disk_read key t1) (store_read key t1)))

  unfoldable pub peek_parquet : ℕ → String → Tiers → Tiers × Option Bytes
  unfolding peek_from
  peek_parquet now key t = peek_from now key (lookup key t.pinned) t

  unfoldable pub warm_parquet : ℕ → String → Tiers → Tiers × Option Bytes
  unfolding disk_read store_read from_store
  warm_parquet now key t = from_store now key (or_else (disk_read key t) (store_read key t)) t

  unfoldable pub put_parquet : ℕ → String → Bytes → Tiers → Tiers
  unfolding promote disk_write store_write
  put_parquet now key payload t =
      store_write key payload (disk_write key payload (promote now key payload t))

  unfoldable pub pin_parquet : String → Bytes → Tiers → Tiers
  unfolding disk_write store_write
  pin_parquet key payload t =
      store_write key payload
        (disk_write key payload (record t { pinned = insert key payload t.pinned }))

  disk_remove : String → Tiers → Tiers
  disk_remove key t =
      if site.disk_cache && not site.remove_fails
      then record t { disk = remove (site.disk_path key) t.disk }
      else t

  unfoldable pub evict_parquet : String → Tiers → Tiers
  unfolding disk_remove store_delete
  evict_parquet key t =
      store_delete key
        (disk_remove key (record t { pinned = remove key t.pinned; parquet = evict key t.parquet }))

  unfoldable pub unpin_all : Tiers → Tiers
  unpin_all t = record t { pinned = [] }
