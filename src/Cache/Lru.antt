-- ===== src/Cache/Lru.antt =====
-- `BytesLRUCache`. The store is the `OrderedDict`, oldest entry first; the clock reading of
-- `time.monotonic` is an argument.
pub mod Window
pub mod Loop
pub mod Bounds
use fabric_shortcut_proxy.Prelude.{
  ℕ, zero, suc, ◌+◌, ◌-◌, String, Bool, true, false, not, ◌&&◌, Option, none, some, List, [], ◌∷◌,
  ◌++◌, length, ltb, if◌then◌else◌,
}
use fabric_shortcut_proxy.Dict.{Dict, lookup, insert, remove, has_key}

abbrev pub Bytes : Type 0
Bytes = List ℕ

-- `data, expiry`
pub record Entry : Type 0 where
  pub payload : Bytes
  pub expiry : ℕ

pub record Lru : Type 0 where
  pub max_bytes : ℕ
  pub ttl : ℕ
  pub store : Dict Entry
  pub current_bytes : ℕ

unfoldable pub init : ℕ → ℕ → Lru
init max_bytes ttl = record { max_bytes = max_bytes; ttl = ttl; store = []; current_bytes = 0 }

unfoldable pub evict : String → Lru → Lru
evict key c = elim (lookup key c.store) [
  | none ↦ c
  | some e ↦ record c {
    store = remove key c.store;
    current_bytes = c.current_bytes - length e.payload;
  }
]

unfoldable pub get : ℕ → String → Lru → Lru × Option Bytes
unfolding evict
get now key c = elim (lookup key c.store) [
  | none ↦ (c, none)
  | some e ↦
      if ltb e.expiry now
      then (evict key c, none)
      else (record c { store = remove key c.store ++ (key, e) ∷ [] }, some e.payload)
]

-- The condition of the loop of `put`.
abbrev pub non_empty {ℓ} : {A : Type ℓ} → List A → Bool
non_empty [] = false
non_empty (_ ∷ _) = true

unfoldable pub is_over : ℕ → Lru → Bool
is_over need c = ltb c.max_bytes (c.current_bytes + need) && non_empty c.store

evict_first : Dict Entry → Lru → Lru
unfolding evict
evict_first [] c = c
evict_first ((k, _) ∷ _) c = evict k c

-- The body of the loop: `next(iter(store))` is the oldest key.
unfoldable pub evict_oldest : Lru → Lru
unfolding evict_first
evict_oldest c = evict_first c.store c

-- The loop, on fuel, for which `put` gives the number of entries.
unfoldable pub shrink : ℕ → ℕ → Lru → Lru
unfolding is_over evict_oldest
shrink zero need c = c
shrink (suc fuel) need c = elim (is_over need c) [
  | true ↦ shrink fuel need (evict_oldest c)
  | false ↦ c
]

unfoldable pub put : ℕ → String → Bytes → Lru → Lru
unfolding shrink evict
put now key payload c =
    if ltb c.max_bytes (length payload)
    then c
    else (let c1 = if has_key key c.store then evict key c else c in
        let c2 = shrink (length c1.store) (length payload) c1 in
        record c2 {
          store = insert key (record { payload = payload; expiry = now + c2.ttl }) c2.store;
          current_bytes = c2.current_bytes + length payload;
        })
