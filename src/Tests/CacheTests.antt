-- ===== src/Tests/CacheTests.antt =====
-- src/fabric_shortcut_proxy/cache/lru_cache.py at concrete inputs.
use fabric_shortcut_proxy.Prelude.{
  ℕ, ◌+◌, ◌-◌, ◌≤◌, ◌≡◌, refl, [], ◌∷◌, ◌++◌, arith, false, length, sum_by,
}
use fabric_shortcut_proxy.Dict.{Dict, insert, remove, lookup}
use fabric_shortcut_proxy.Cache.Lru.{Entry, Lru, is_over, shrink, put}
use fabric_shortcut_proxy.Cache.Lru.Bounds.{IsValid, size}
use fabric_shortcut_proxy.Cache.Lru.Loop.{shrink_ends}
use fabric_shortcut_proxy.Cache.Lru.Window.{IsTight, put_keeps_newest}

abbrev two : Lru
two = record {
  max_bytes = 4;
  ttl = 10;
  store =
      ("a", record { payload = 1 ∷ 2 ∷ []; expiry = 9 })
      ∷ ("b", record { payload = 3 ∷ []; expiry = 9 })
      ∷ [];
  current_bytes = 3;
}

two-IsValid : IsValid two
unfolding lookup
two-IsValid = record { distinct = (refl, (refl, tt)); counted = refl; within = omega arith }

put_evicts_a :
    (put 5 "c" (7 ∷ 8 ∷ []) two).store
    ≡ ("b", record { payload = 3 ∷ []; expiry = 9 })
      ∷ ("c", record { payload = 7 ∷ 8 ∷ []; expiry = 15 })
      ∷ []
unfolding put insert remove lookup
put_evicts_a = refl

put_keeps_newest_example :
    (gone : Dict Entry) × (kept : Dict Entry) × (remove "c" two.store ≡ gone ++ kept)
    × ((put 5 "c" (7 ∷ 8 ∷ []) two).store
        ≡ kept ++ ("c", record { payload = 7 ∷ 8 ∷ []; expiry = 5 + two.ttl }) ∷ [])
    × (sum_by size kept + length {A = ℕ} (7 ∷ 8 ∷ []) ≤ two.max_bytes)
    × IsTight (two.max_bytes - length {A = ℕ} (7 ∷ 8 ∷ [])) gone kept
put_keeps_newest_example = put_keeps_newest 5 "c" (7 ∷ 8 ∷ []) two two-IsValid (omega arith)

shrink_ends_example : (is_over 2 (shrink 2 2 two) ≡ false) × (shrink 9 2 two ≡ shrink 2 2 two)
shrink_ends_example = shrink_ends 2 9 2 two (omega arith) (omega arith)
