-- ===== src/Cache/Lru/Bounds.antt =====
-- The accounting of `BytesLRUCache`: the byte counter is the sum of the entries, and never passes
-- the limit.
use fabric_shortcut_proxy.Prelude.{
  ℕ, zero, suc, ◌≤◌, String, ◌≡◌, some, [], ◌∷◌, ◌++◌, length, ltb, sum_by, arith, sum_by-append,
  Option-cases, Bool-cases, inl, inr,
}
use fabric_shortcut_proxy.Dict.{
  Dict, lookup, remove, IsDistinct, IsDistinct-remove, sum_by-remove, IsDistinct-append_one,
  remove_absent, lookup-remove_self,
}
use fabric_shortcut_proxy.Cache.Lru.{
  Entry, Lru, evict, get, is_over, evict_first, evict_oldest, shrink,
}

abbrev pub size : String × Entry → ℕ
size e = length e.1.payload

pub record IsValid (c : Lru) : Type 0 where
  pub distinct : IsDistinct c.store
  pub counted : c.current_bytes ≡ sum_by size c.store
  pub within : c.current_bytes ≤ c.max_bytes

pub store-evict : (key : String) (c : Lru) → (evict key c).store ≡ remove key c.store
unfolding evict
store-evict key c = ground (arith, remove_absent key c.store)

pub max_bytes-evict : (key : String) (c : Lru) → (evict key c).max_bytes ≡ c.max_bytes
unfolding evict
max_bytes-evict key c = ground arith

module _ (key : String) {c : Lru} (v : IsValid c) where
  pub evict-IsValid : IsValid (evict key c)
  unfolding evict
  evict-IsValid = elim (Option-cases (lookup key c.store)) [
    | inl absent ↦ rw (absent, evict) v
    | inr (e, found) ↦
        rw (found, evict)
          (record {
            distinct = IsDistinct-remove key c.store v.distinct;
            counted = omega (arith, v.counted, sum_by-remove size key e c.store v.distinct found);
            within = omega (arith, v.within);
          })
  ]

  -- A hit moves its entry to the end, which neither adds nor loses bytes.
  touch-IsValid :
      (e : Entry)
      → lookup key c.store ≡ some e
      → IsValid (record c { store = remove key c.store ++ (key, e) ∷ [] })
  touch-IsValid e found = record {
    distinct =
        IsDistinct-append_one key e (remove key c.store) (IsDistinct-remove key c.store v.distinct)
          (lookup-remove_self key c.store);
    counted = omega (
      arith,
      v.counted,
      sum_by-remove size key e c.store v.distinct found,
      sum_by-append size (remove key c.store) ((key, e) ∷ []),
    );
    within = v.within;
  }

  pub get-IsValid : (now : ℕ) → IsValid (get now key c).0
  unfolding get
  get-IsValid now = elim (Option-cases (lookup key c.store)) [
    | inl absent ↦ rw (absent, get) v
    | inr (e, found) ↦
        rw (found, get)
          (elim (Bool-cases (ltb e.expiry now)) [
            | inl late ↦ rw late evict-IsValid
            | inr live ↦ rw live (touch-IsValid e found)
          ])
  ]

pub evict_oldest-IsValid : {c : Lru} → IsValid c → IsValid (evict_oldest c)
unfolding evict_oldest
evict_oldest-IsValid {c} v = go c.store
  where
    go : (d : Dict Entry) → IsValid (evict_first d c)
    go [] = v
    go ((k, e) ∷ d) = evict-IsValid k v

pub shrink-IsValid : (fuel need : ℕ) {c : Lru} → IsValid c → IsValid (shrink fuel need c)
unfolding shrink
shrink-IsValid zero need v = v
shrink-IsValid (suc fuel) need {c} v = elim (Bool-cases (is_over need c)) [
  | inl over ↦ rw (over, shrink) (shrink-IsValid fuel need (evict_oldest-IsValid v))
  | inr fits ↦ rw (fits, shrink) v
]
