-- ===== src/Cache/Lru/Window.antt =====
-- What `put` keeps: the newest entries that fit beside the new one, against a reference that trims
-- the store from its old end.
use mathlib.Core.Path.{ap₂}
use fabric_shortcut_proxy.Prelude.{
  ℕ, zero, suc, ◌+◌, ◌-◌, ◌≤◌, ◌<◌, String, ◌≡◌, refl, sym, ap, ◌∙◌, none, some, [], ◌∷◌, ◌++◌,
  length, ltb, if◌then◌else◌, sum_by, arith, Bool-cases, List-cases, inl, inr, str_eq_refl, ltb→lt,
  sum_by-append, append_one-ne-nil, subst,
}
use fabric_shortcut_proxy.Dict.{
  Dict, lookup, insert, remove, has_key, IsDistinct, lookup-remove_self, insert_absent,
  remove_absent, lookup-append, IsDistinct-append_one,
}
use fabric_shortcut_proxy.Cache.Lru.{
  Bytes, Entry, Lru, evict, get, evict_first, evict_oldest, shrink, put,
}
use fabric_shortcut_proxy.Cache.Lru.Bounds.{
  IsValid, size, evict-IsValid, shrink-IsValid, store-evict, max_bytes-evict, evict_oldest-IsValid,
}

-- The reference: entries go from the old end until the rest is within the limit.
unfoldable pub trim : ℕ → Dict Entry → Dict Entry
trim limit [] = []
trim limit (e ∷ d) =
    let rest = trim limit d in if ltb limit (sum_by size (e ∷ d)) then rest else e ∷ d

-- What was trimmed last would not have fitted beside the rest.
abbrev pub IsTight : ℕ → Dict Entry → Dict Entry → Type 0
IsTight limit gone rest =
    (older : Dict Entry) (e : String × Entry)
    → gone ≡ older ++ e ∷ []
    → limit < size e + sum_by size rest

IsTight-nil : (limit : ℕ) (rest : Dict Entry) → IsTight limit [] rest
IsTight-nil limit rest older e p = absurd (append_one-ne-nil older e p)

IsTight-cons :
    (limit : ℕ) (x : String × Entry) (gone rest : Dict Entry)
    → limit < size x + sum_by size (gone ++ rest)
    → IsTight limit gone rest
    → IsTight limit (x ∷ gone) rest
IsTight-cons limit x gone rest over t [] e p =
    let q : gone ≡ [] = cc in let same : x ≡ e = cc in rw (← same) (rw q at over)
IsTight-cons limit x gone rest over t (o ∷ older) e p = t older e (cc)

-- `trim` gives the longest end of the store that is within the limit.
pub trim_longest :
    (limit : ℕ) (d : Dict Entry)
    → (gone : Dict Entry) × (d ≡ gone ++ trim limit d)
      × (sum_by size (trim limit d) ≤ limit)
      × IsTight limit gone (trim limit d)
unfolding trim
trim_longest limit [] = ([], refl, omega arith, IsTight-nil limit [])
trim_longest limit (x ∷ d) = elim (Bool-cases (ltb limit (sum_by size (x ∷ d)))) [
  | inl over ↦
      let (gone, split, fit, tight) = trim_longest limit d in
      rw over (
        x ∷ gone,
        ap (◌∷◌ x) split,
        fit,
        IsTight-cons limit x gone (trim limit d)
            (rw (← split) (ltb→lt limit (sum_by size (x ∷ d)) over)) tight,
      )
  | inr fits ↦ rw fits ([], refl, ground arith, IsTight-nil limit (x ∷ d))
]

remove_first :
    (k : String) (e : Entry) (d : Dict Entry) → IsDistinct ((k, e) ∷ d) → remove k ((k, e) ∷ d) ≡ d
unfolding remove
remove_first k e d h = ground (arith, str_eq_refl k, remove_absent k d)

store-evict_oldest :
    (c : Lru) (k : String) (e : Entry) (d : Dict Entry)
    → c.store ≡ (k, e) ∷ d
    → IsDistinct c.store
    → ((evict_oldest c).store ≡ d) × ((evict_oldest c).max_bytes ≡ c.max_bytes)
unfolding evict_oldest
store-evict_oldest c k e d s h = ground (
  arith,
  store-evict k c,
  ap (remove k) s,
  remove_first k e d (subst IsDistinct s h),
  max_bytes-evict k c,
)

pub shrink-trim :
    (fuel need : ℕ) (c : Lru)
    → IsValid c
    → need ≤ c.max_bytes
    → length c.store ≤ fuel
    → ((shrink fuel need c).store ≡ trim (c.max_bytes - need) c.store)
      × ((shrink fuel need c).max_bytes ≡ c.max_bytes)
      × ((shrink fuel need c).current_bytes + need ≤ c.max_bytes)
unfolding shrink trim
shrink-trim zero need c v small enough = elim (List-cases c.store) [
  | inl empty ↦ ground (arith, ap (sum_by size) empty)
  | inr (x, r, p) ↦ absurd (omega (arith, ap length p))
]
shrink-trim (suc fuel) need c v small enough = elim (List-cases c.store) [
  | inl empty ↦ ground (arith, ap (sum_by size) empty)
  | inr ((k, e), r, p) ↦
      let next = store-evict_oldest c k e r p v.distinct in
      let fewer : length (evict_oldest c).store ≤ fuel = rw next.0 (omega (arith, ap length p)) in
      ground (
        arith,
        ap (sum_by size) p,
        next,
        shrink-trim fuel need (evict_oldest c) (evict_oldest-IsValid v) (rw next.1 small) fewer,
      )
]

abbrev fresh : ℕ → Bytes → Lru → Entry
fresh now payload c = record { payload = payload; expiry = now + c.ttl }

ttl-shrink : (fuel need : ℕ) (c : Lru) → (shrink fuel need c).ttl ≡ c.ttl
unfolding shrink evict_oldest evict evict_first
ttl-shrink zero need c = refl
ttl-shrink (suc fuel) need c = ground (arith, ttl-shrink fuel need (evict_oldest c))

-- The state in which the loop of `put` starts.
cleared : String → Lru → Lru
cleared key c = if has_key key c.store then evict key c else c

cleared_lem :
    (key : String) (c : Lru)
    → IsValid c
    → IsValid (cleared key c)
      × ((cleared key c).store ≡ remove key c.store)
      × ((cleared key c).max_bytes ≡ c.max_bytes)
      × ((cleared key c).ttl ≡ c.ttl)
unfolding cleared evict
cleared_lem key c v = elim (Bool-cases (has_key key c.store)) [
  | inl old ↦ rw old (evict-IsValid key v, store-evict key c, max_bytes-evict key c, ground arith)
  | inr new ↦ rw new (v, sym (remove_absent key c.store (ground arith)), refl, refl)
]

lookup_of_suffix :
    (k : String) (gone rest : Dict Entry) → lookup k (gone ++ rest) ≡ none → lookup k rest ≡ none
lookup_of_suffix k gone rest h = ground (arith, lookup-append k gone rest)

lookup-trim :
    (k : String) (limit : ℕ) (d : Dict Entry) → lookup k d ≡ none → lookup k (trim limit d) ≡ none
lookup-trim k limit d h =
    let t = trim_longest limit d in
    lookup_of_suffix k t.0 (trim limit d) (subst (λ x. lookup k x ≡ none) t.1 h)

module _ (now : ℕ) (key : String) (payload : Bytes) (c : Lru) (v : IsValid c)
    (fits : length payload ≤ c.max_bytes) where
  abbrev limit : ℕ
  limit = c.max_bytes - length payload

  abbrev before : Lru
  before = cleared key c

  abbrev made_room : Lru
  made_room = shrink (length before.store) (length payload) before

  made_room_lem :
      (made_room.store ≡ trim limit (remove key c.store))
      × (made_room.current_bytes + length payload ≤ c.max_bytes)
      × (made_room.max_bytes ≡ c.max_bytes)
      × (made_room.ttl ≡ c.ttl)
      × IsValid made_room
  made_room_lem =
      let (valid, same_store, same_max, same_ttl) = cleared_lem key c v in
      let (a, b, d) =
        shrink-trim (length before.store) (length payload) before valid (rw same_max fits)
          (omega arith) in
      (
        a ∙ ap₂ (λ m s. trim (m - length payload) s) same_max same_store,
        omega (arith, same_max, d),
        b ∙ same_max,
        ttl-shrink (length before.store) (length payload) before ∙ same_ttl,
        shrink-IsValid (length before.store) (length payload) valid,
      )

  put_lem : put now key payload c ≡ record made_room {
    store = insert key (record { payload = payload; expiry = now + made_room.ttl }) made_room.store;
    current_bytes = made_room.current_bytes + length payload;
  }
  unfolding put cleared
  put_lem = ground arith

  absent : lookup key made_room.store ≡ none
  absent =
      rw made_room_lem.0
        (lookup-trim key limit (remove key c.store) (lookup-remove_self key c.store))

  appended :
      insert key (fresh now payload made_room) made_room.store
      ≡ made_room.store ++ (key, fresh now payload made_room) ∷ []
  appended = insert_absent key (fresh now payload made_room) made_room.store absent

  store-put :
      (put now key payload c).store
      ≡ trim limit (remove key c.store) ++ (key, fresh now payload c) ∷ []
  store-put = rw put_lem (rw appended (rw (made_room_lem.0, made_room_lem.3)))

  fitting-IsValid : IsValid (put now key payload c)
  fitting-IsValid = rw put_lem (record {
    distinct = rw appended (
        IsDistinct-append_one key (fresh now payload made_room) made_room.store
          made_room_lem.4.distinct absent);
    counted = rw appended (
        omega (
          arith,
          made_room_lem.4.counted,
          sum_by-append size made_room.store ((key, fresh now payload made_room) ∷ []),
        ));
    within = omega (arith, made_room_lem.1, made_room_lem.2);
  })

-- On a valid cache `put` of an object that fits appends it as the newest entry, behind the longest
-- end of the other entries that fits with it: what goes are the oldest entries, and no more of
-- them than is needed.
pub put_keeps_newest :
    (now : ℕ) (key : String) (payload : Bytes) (c : Lru)
    → IsValid c
    → length payload ≤ c.max_bytes
    → (gone : Dict Entry) × (kept : Dict Entry) × (remove key c.store ≡ gone ++ kept)
      × ((put now key payload c).store
          ≡ kept ++ (key, record { payload = payload; expiry = now + c.ttl }) ∷ [])
      × (sum_by size kept + length payload ≤ c.max_bytes)
      × IsTight (c.max_bytes - length payload) gone kept
put_keeps_newest now key payload c v fits =
    let rest = trim (c.max_bytes - length payload) (remove key c.store) in
    let (gone, split, small, tight) =
      trim_longest (c.max_bytes - length payload) (remove key c.store) in
    (gone, rest, split, store-put now key payload c v fits, omega arith, tight)

-- `put` keeps the accounting, whether the object is stored, replaced or too large.
pub put-IsValid :
    (now : ℕ) (key : String) (payload : Bytes) {c : Lru}
    → IsValid c
    → IsValid (put now key payload c)
unfolding put
put-IsValid now key payload {c} v = elim (Bool-cases (ltb c.max_bytes (length payload))) [
  | inl large ↦ rw (large, put) v
  | inr fits ↦ fitting-IsValid now key payload c v (ground arith)
]

-- After a `put` that fits, `get` returns the object until the clock passes the expiry, and then
-- nothing.
pub get-cache_put :
    (now later : ℕ) (key : String) (payload : Bytes) (c : Lru)
    → IsValid c
    → length payload ≤ c.max_bytes
    → (get later key (put now key payload c)).1
      ≡ (if ltb (now + c.ttl) later then none else some payload)
unfolding get
get-cache_put now later key payload c v fits =
    let kept = trim (c.max_bytes - length payload) (remove key c.store) in
    let gone : lookup key kept ≡ none =
      lookup-trim key _ (remove key c.store) (lookup-remove_self key c.store) in
    let found : lookup key (put now key payload c).store ≡ some (fresh now payload c) =
      rw (store-put now key payload c v fits) (
        rw (lookup-append key kept ((key, fresh now payload c) ∷ []))
          (rw gone (unfold lookup in rw (str_eq_refl key)))) in
    rw (found, get) (ground arith)
