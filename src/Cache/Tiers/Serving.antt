-- ===== src/Cache/Tiers/Serving.antt =====
-- What clients of the Parquet tiers can read.
use fabric_shortcut_proxy.Prelude.{
  ℕ, ◌<◌, String, str_eq, str_eq_refl, Bool, true, false, not, Option, none, some, List, [], ◌∷◌,
  length, all, ◌≡◌, ◌∙◌, refl, arith, ◌≤◌,
}
use fabric_shortcut_proxy.Dict.{lookup, lookup-insert, lookup-remove, lookup-remove_self}
use fabric_shortcut_proxy.Artifacts.Memory.Laws.{get-delete_self}
use fabric_shortcut_proxy.Cache.Lru
use fabric_shortcut_proxy.Cache.Lru.{Bytes, Lru, evict}
use fabric_shortcut_proxy.Cache.Lru.Bounds.{store-evict}
use fabric_shortcut_proxy.Cache.Tiers.{
  Site, Tiers, disk_read, disk_write, store_read, store_write, store_delete, note, get_parquet,
  peek_parquet, warm_parquet, put_parquet, pin_parquet, evict_parquet, unpin_all, from_pins,
  from_memory, from_disk, from_store, promote, peek_from, disk_remove, or_else, get_metadata,
  put_metadata,
}

-- The calls of the module.
pub data Call : Type 0 where
  read peek warm read_metadata : ℕ → String → Call
  store_metadata store : ℕ → String → Bytes → Call
  pin : String → Bytes → Call
  drop : String → Call
  unpin : Call

module _ (site : Site) where
  step : Call → Tiers → Tiers
  step (read now key) t = (get_parquet site now key t).0
  step (peek now key) t = (peek_parquet site now key t).0
  step (warm now key) t = (warm_parquet site now key t).0
  step (read_metadata now key) t = (get_metadata site now key t).0
  step (store_metadata now key b) t = put_metadata site now key b t
  step (store now key b) t = put_parquet site now key b t
  step (pin key b) t = pin_parquet site key b t
  step (drop key) t = evict_parquet site key t
  step unpin t = unpin_all site t

  pub run : List Call → Tiers → Tiers
  unfolding step
  run [] t = t
  run (c ∷ cs) t = run cs (step c t)

  -- Every call but a pin or an eviction of the same key, and the reset of all pins.
  abbrev pub spares : String → Call → Bool
  spares key (pin j _) = not (str_eq j key)
  spares key (drop j) = not (str_eq j key)
  spares key unpin = false
  spares key _ = true

  pinned_store_write :
      (key : String) (b : Bytes) (t : Tiers) → (store_write site key b t).pinned ≡ t.pinned
  unfolding store_write
  pinned_store_write key b t = ground arith

  pinned_disk_write :
      (key : String) (b : Bytes) (t : Tiers) → (disk_write site key b t).pinned ≡ t.pinned
  unfolding disk_write
  pinned_disk_write key b t = ground arith

  pinned_from_store :
      (now : ℕ) (key : String) (o : Option Bytes) (t : Tiers)
      → (from_store site now key o t).0.pinned ≡ t.pinned
  unfolding from_store promote
  pinned_from_store now key o t = ground arith

  pinned_from_disk :
      (now : ℕ) (key : String) (o : Option Bytes) (t : Tiers)
      → (from_disk site now key o t).0.pinned ≡ t.pinned
  unfolding from_disk promote note
  pinned_from_disk now key none t = pinned_from_store now key _ _
  pinned_from_disk now key (some b) t = refl

  pinned_from_memory :
      (now : ℕ) (key : String) (o : Option Bytes) (t : Tiers)
      → (from_memory site now key o t).0.pinned ≡ t.pinned
  unfolding from_memory note
  pinned_from_memory now key none t = pinned_from_disk now key _ t
  pinned_from_memory now key (some b) t = refl

  pinned_from_pins :
      (now : ℕ) (key : String) (o : Option Bytes) (t : Tiers)
      → (from_pins site now key o t).0.pinned ≡ t.pinned
  unfolding from_pins note
  pinned_from_pins now key none t = pinned_from_memory now key _ _
  pinned_from_pins now key (some b) t = refl

  pinned_peek_from :
      (now : ℕ) (key : String) (o : Option Bytes) (t : Tiers)
      → (peek_from site now key o t).0.pinned ≡ t.pinned
  unfolding peek_from
  pinned_peek_from now key none t = refl
  pinned_peek_from now key (some b) t = refl

  step-pinned :
      (key : String) (c : Call) (t : Tiers)
      → spares key c ≡ true
      → lookup key (step c t).pinned ≡ lookup key t.pinned
  unfolding step get_parquet peek_parquet warm_parquet get_metadata put_metadata put_parquet
      pin_parquet evict_parquet promote disk_remove store_delete note
  step-pinned key (read now j) t h = rw (pinned_from_pins now j (lookup j t.pinned) t)
  step-pinned key (peek now j) t h = rw (pinned_peek_from now j (lookup j t.pinned) t)
  step-pinned key (warm now j) t h =
      ground (arith, pinned_from_store now j (or_else (disk_read site j t) (store_read site j t)) t)
  step-pinned key (read_metadata now j) t h = refl
  step-pinned key (store_metadata now j b) t h = refl
  step-pinned key (store now j b) t h =
      rw (pinned_store_write j b _) (rw (pinned_disk_write j b _) refl)
  step-pinned key (pin j b) t h =
      rw (pinned_store_write j b _)
        (rw (pinned_disk_write j b _) (ground (arith, lookup-insert j key b t.pinned)))
  step-pinned key (drop j) t h = ground (arith, lookup-remove j key t.pinned)
  step-pinned key unpin t h = cc

  run-pinned :
      (key : String) (calls : List Call) (t : Tiers)
      → all (spares key) calls ≡ true
      → lookup key (run calls t).pinned ≡ lookup key t.pinned
  unfolding run
  run-pinned key [] t h = refl
  run-pinned key (c ∷ cs) t h =
      run-pinned key cs (step c t) (ground arith) ∙ step-pinned key c t (ground arith)

-- A pinned split is served byte for byte, at any time and after any calls that neither evict it,
-- nor pin other bytes under its key, nor drop all pins: it is never expired or evicted.
pub pinned_is_served :
    (site : Site) (now : ℕ) (key : String) (b : Bytes) (calls : List Call) (t : Tiers)
    → all (spares site key) calls ≡ true
    → (get_parquet site now key (run site calls (pin_parquet site key b t))).1 ≡ some b
unfolding get_parquet from_pins pin_parquet
pinned_is_served site now key b calls t h =
    let pinned = pin_parquet site key b t in
    let there : lookup key pinned.pinned ≡ some b = rw (pinned_store_write site key b _) (
      rw (pinned_disk_write site key b _)
        (rw (lookup-insert key key b t.pinned) (rw (str_eq_refl key)))) in
    rw (run-pinned site key calls pinned h) (rw there refl)

-- `peek_parquet` sees exactly what `get_parquet` would return.
pub peek-get :
    (site : Site) (now : ℕ) (key : String) (t : Tiers)
    → (peek_parquet site now key t).1 ≡ (get_parquet site now key t).1
unfolding peek_parquet get_parquet peek_from from_pins from_memory from_disk from_store disk_read
    store_read note
peek-get site now key t = ground arith

get_parquet-absent :
    (site : Site) (now : ℕ) (key : String) (t : Tiers)
    → lookup key t.pinned ≡ none
    → lookup key t.parquet.store ≡ none
    → disk_read site key t ≡ none
    → store_read site key t ≡ none
    → (get_parquet site now key t).1 ≡ none
unfolding get_parquet from_pins from_memory from_disk from_store Lru.get disk_read store_read note
get_parquet-absent site now key t p m d s = ground arith

-- After an eviction whose removals succeed, no tier has the object, at any time.
pub get-evict_parquet :
    (site : Site) (now : ℕ) (key : String) (t : Tiers)
    → site.remove_fails ≡ false
    → site.store_fails ≡ false
    → (get_parquet site now key (evict_parquet site key t)).1 ≡ none
unfolding evict_parquet
get-evict_parquet site now key t disk_ok store_ok =
    let (e, gone) = get-delete_self key t.artifacts in
    get_parquet-absent site now key (evict_parquet site key t)
      (ground (arith, lookup-remove_self key t.pinned))
      (ground (arith, store-evict key t.parquet, lookup-remove_self key t.parquet.store))
      (unfold disk_read in ground (arith, lookup-remove_self (site.disk_path key) t.disk))
      (unfold store_read in ground (arith, gone))

-- An object above the limit of the memory cache does not replace the bytes that the memory cache
-- holds under its key, so reads go on with the old bytes until they expire, whatever the slower
-- tiers hold.
pub large_put_serves_old :
    (site : Site) (now later : ℕ) (key : String) (old : Lru.Entry) (b : Bytes) (t : Tiers)
    → t.parquet.max_bytes < length b
    → lookup key t.pinned ≡ none
    → lookup key t.parquet.store ≡ some old
    → later ≤ old.expiry
    → (get_parquet site later key (put_parquet site now key b t)).1 ≡ some old.payload
unfolding get_parquet put_parquet promote Lru.put Lru.get from_pins from_memory note store_write
    disk_write
large_put_serves_old site now later key old b t large unpinned there live = ground arith
