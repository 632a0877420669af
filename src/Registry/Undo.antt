-- ===== src/Registry/Undo.antt =====
-- What a failed durable write leaves behind: `_restore_locked` after `_snapshot_locked`.
use fabric_shortcut_proxy.Prelude.{
  ℕ, ◌-◌, ◌*◌, ◌/◌, ◌≤◌, String, str_eq, str_eq_iff, Option, none, some, List, [], ◌∷◌, ◌≡◌, refl,
  ap, ◌∙◌, arith, All, if◌then◌else◌, Bool-cases, inl, inr, sorted_set,
}
use fabric_shortcut_proxy.Prelude.Sort.{put_by, sort_by, sort_by-All}
use fabric_shortcut_proxy.Dict.{Dict, lookup, insert, IsDistinct, lookup-insert, All-lookup}
use fabric_shortcut_proxy.Placement.{
  PlacementConfig, MaterializerPool, pool_for_identity, validate_agent_version,
}
use fabric_shortcut_proxy.Registry.{AgentRecord, AgentSnapshot, Readers}
use fabric_shortcut_proxy.Registry.Snapshot.{
  placed_in, placed, snapshot_of, snapshots, snapshot, restored, restore_agents, id_before,
  add_restored, version_of,
}
use mathlib.Core.Option

-- A record as a registration leaves it: its version is supported, its pool fields are those of the
-- configuration, its capabilities are a sorted set, and it is not from the future.
pub record IsSettled (read : Readers) (c : PlacementConfig) (now : ℕ) (e : String × AgentRecord)
    : Type 0 where
  pub named : e.1.agent_id ≡ e.0
  pub supported : validate_agent_version read.release_of c e.1.agent_id e.1.version ≡ none
  pub in_place : placed c e.1 ≡ e.1
  pub sorted : sorted_set e.1.capabilities ≡ e.1.capabilities
  pub registered_before : e.1.registered_at ≤ now
  pub seen_before : e.1.last_seen ≤ now

-- The record with its times as a write that failed from `now` to `later` leaves them.
unfoldable pub shifted : ℕ → ℕ → AgentRecord → AgentRecord
shifted now later a = record a {
  registered_at = later - (now - a.registered_at) / 1000 * 1000;
  last_seen = later - (now - a.last_seen) / 1000 * 1000;
}

pub placed_in-shifted :
    (p : Option MaterializerPool) (x y : ℕ) (a : AgentRecord)
    → placed_in p (record a { registered_at = x; last_seen = y })
      ≡ record (placed_in p a) { registered_at = x; last_seen = y }
unfolding placed_in
placed_in-shifted none x y a = refl
placed_in-shifted (some pool) x y a = refl

restored-snapshot_of :
    (read : Readers) (c : PlacementConfig) (now later : ℕ) (id : String) (a : AgentRecord)
    → IsSettled read c now (id, a)
    → restored c later (snapshot_of now a) ≡ shifted now later a
unfolding restored snapshot_of placed shifted
restored-snapshot_of read c now later id a h =
    let x = later - (now - a.registered_at) / 1000 * 1000 in
    let y = later - (now - a.last_seen) / 1000 * 1000 in
    rw h.sorted (
      placed_in-shifted (pool_for_identity c a.agent_id) x y a
      ∙ ap (λ (b : AgentRecord). record b { registered_at = x; last_seen = y }) h.in_place)

find : String → List AgentSnapshot → Option AgentSnapshot
find id [] = none
find id (s ∷ ss) = if str_eq s.fields.agent_id id then some s else find id ss

-- No two entries are of one agent.
abbrev IsDistinctIds : List AgentSnapshot → Type 0
IsDistinctIds [] = Unit
IsDistinctIds (s ∷ ss) = (find s.fields.agent_id ss ≡ none) × IsDistinctIds ss

find-put_by :
    (id : String) (s : AgentSnapshot) (ss : List AgentSnapshot)
    → find s.fields.agent_id ss ≡ none
    → find id (put_by id_before s ss) ≡ (if str_eq s.fields.agent_id id then some s else find id ss)
unfolding find put_by
find-put_by id s [] h = refl
find-put_by id s (t ∷ ts) h = ground (
  arith,
  h,
  find-put_by id s ts,
  str_eq_iff s.fields.agent_id id,
  str_eq_iff t.fields.agent_id id,
  str_eq_iff t.fields.agent_id s.fields.agent_id,
)

put_by-IsDistinctIds :
    (s : AgentSnapshot) (ss : List AgentSnapshot)
    → find s.fields.agent_id ss ≡ none
    → IsDistinctIds ss
    → IsDistinctIds (put_by id_before s ss)
unfolding put_by find
put_by-IsDistinctIds s [] h d = (refl, tt)
put_by-IsDistinctIds s (t ∷ ts) h d = elim (Bool-cases (id_before t s)) [
  | inl later ↦ rw later (
    ground (
      arith,
      h,
      d.0,
      find-put_by t.fields.agent_id s ts,
      str_eq_iff s.fields.agent_id t.fields.agent_id,
      str_eq_iff t.fields.agent_id s.fields.agent_id,
    ),
    put_by-IsDistinctIds s ts (ground (arith, h)) d.1,
  )
  | inr first ↦ rw first (h, d)
]

find-sort_by :
    (id : String) (ss : List AgentSnapshot)
    → IsDistinctIds ss
    → (find id (sort_by id_before ss) ≡ find id ss) × IsDistinctIds (sort_by id_before ss)
unfolding sort_by find
find-sort_by id [] d = (refl, tt)
find-sort_by id (s ∷ ss) d =
    let rest = find-sort_by id ss d.1 in
    let absent : find s.fields.agent_id (sort_by id_before ss) ≡ none =
      (find-sort_by s.fields.agent_id ss d.1).0 ∙ d.0 in
    (
      ground (arith, find-put_by id s (sort_by id_before ss) absent, rest.0),
      put_by-IsDistinctIds s (sort_by id_before ss) absent rest.1,
    )

pub placed_in_id :
    (p : Option MaterializerPool) (a : AgentRecord) → (placed_in p a).agent_id ≡ a.agent_id
unfolding placed_in
placed_in_id none a = refl
placed_in_id (some pool) a = refl

restored_id :
    (c : PlacementConfig) (later : ℕ) (s : AgentSnapshot)
    → (restored c later s).agent_id ≡ s.fields.agent_id
unfolding restored placed
restored_id c later s = placed_in_id (pool_for_identity c s.fields.agent_id) _

module _ (read : Readers) (c : PlacementConfig) (now : ℕ) where
  find-snapshots :
      (id : String) (d : Dict AgentRecord)
      → All (IsSettled read c now) d
      → find id (snapshots now d) ≡ Option.map (snapshot_of now) (lookup id d)
  unfolding find snapshots lookup snapshot_of
  find-snapshots id [] h = refl
  find-snapshots id ((k, a) ∷ d) h =
      let same : a.agent_id ≡ k = h.0.named in
      let rest = find-snapshots id d h.1 in
      rw same
        (elim (Bool-cases (str_eq k id)) [ inl here ↦ rw here refl | inr other ↦ rw other rest ])

  snapshots-IsDistinctIds :
      (d : Dict AgentRecord)
      → IsDistinct d
      → All (IsSettled read c now) d
      → IsDistinctIds (snapshots now d)
  unfolding snapshots snapshot_of
  snapshots-IsDistinctIds [] u h = tt
  snapshots-IsDistinctIds ((k, a) ∷ d) u h =
      let same : a.agent_id ≡ k = h.0.named in
      let absent : lookup k d ≡ none = ground (arith, u.0) in
      (
        rw same (find-snapshots k d h.1 ∙ ap (Option.map (snapshot_of now)) absent),
        snapshots-IsDistinctIds d u.1 h.1,
      )

  -- A snapshot of settled records.
  abbrev FromSettled : AgentSnapshot → Type 0
  FromSettled s = (e : String × AgentRecord) × IsSettled read c now e × (s ≡ snapshot_of now e.1)

  snapshots-FromSettled :
      (d : Dict AgentRecord) → All (IsSettled read c now) d → All FromSettled (snapshots now d)
  unfolding snapshots
  snapshots-FromSettled [] h = tt
  snapshots-FromSettled ((k, a) ∷ d) h = (((k, a), h.0, refl), snapshots-FromSettled d h.1)

  found_or : Option AgentSnapshot → ℕ → Option AgentRecord → Option AgentRecord
  found_or none later o = o
  found_or (some s) later o = some (restored c later s)

  version_passes : (s : AgentSnapshot) → FromSettled s → version_of read c s ≡ none
  unfolding version_of snapshot_of
  version_passes s (e, h, same) = rw same h.supported

  looks_again :
      (later : ℕ) (id : String) (s : AgentSnapshot) (ss : List AgentSnapshot) (d : Dict AgentRecord)
      → find s.fields.agent_id ss ≡ none
      → found_or
          (find id ss)
          later
          (lookup id (insert (restored c later s).agent_id (restored c later s) d))
        ≡ found_or (if str_eq s.fields.agent_id id then some s else find id ss) later (lookup id d)
  unfolding found_or
  looks_again later id s ss d absent =
      let r = restored c later s in
      ap (λ k. found_or (find id ss) later (lookup id (insert k r d))) (restored_id c later s)
      ∙ rw (lookup-insert s.fields.agent_id id r d)
          (elim (Bool-cases (str_eq s.fields.agent_id id)) [
            | inl here ↦
                let none_left : find id ss ≡ none =
                  ground (arith, absent, (str_eq_iff _ _).0 here) in
                rw (here, none_left) refl
            | inr other ↦ rw other refl
          ])

  lookup-restore_agents :
      (later : ℕ) (ss : List AgentSnapshot) (d : Dict AgentRecord)
      → All FromSettled ss
      → IsDistinctIds ss
      → (d' : Dict AgentRecord) × (restore_agents read c later ss d ≡ some d')
        × ((id : String) → lookup id d' ≡ found_or (find id ss) later (lookup id d))
  unfolding restore_agents add_restored find found_or
  lookup-restore_agents later [] d h u = (d, refl, λ id. refl)
  lookup-restore_agents later (s ∷ ss) d h u =
      let r = restored c later s in
      let (d', done, looks) = lookup-restore_agents later ss (insert r.agent_id r d) h.1 u.1 in
      (d', rw (version_passes s h.0) done, λ id. looks id ∙ looks_again later id s ss d u.0)

  restored-found :
      (later : ℕ) (id : String) (o : Option AgentRecord)
      → ((a : AgentRecord) → o ≡ some a → IsSettled read c now (id, a))
      → found_or (Option.map (snapshot_of now) o) later none ≡ Option.map (shifted now later) o
  unfolding found_or
  restored-found later id none h = refl
  restored-found later id (some a) h =
      ap some (restored-snapshot_of read c now later id a (h a refl))

  -- A snapshot of settled agents is restored whole, each agent with its times moved.
  pub lookup-restored :
      (later : ℕ) (d : Dict AgentRecord)
      → IsDistinct d
      → All (IsSettled read c now) d
      → (d' : Dict AgentRecord) × (restore_agents read c later (snapshot now d) [] ≡ some d')
        × ((id : String) → lookup id d' ≡ Option.map (shifted now later) (lookup id d))
  unfolding snapshot lookup
  lookup-restored later d u h =
      let ss = snapshots now d in
      let distinct = snapshots-IsDistinctIds d u h in
      let (d', done, looks) =
        lookup-restore_agents later (sort_by id_before ss) []
          (sort_by-All id_before FromSettled ss (snapshots-FromSettled d h))
          (find-sort_by "" ss distinct).1 in
      (
        d',
        done,
        λ id.
            looks id
            ∙ ap (λ o. found_or o later none)
                ((find-sort_by id ss distinct).0 ∙ find-snapshots id d h)
            ∙ restored-found later id (lookup id d)
                (λ a there. All-lookup (IsSettled read c now) id a d h there),
      )
