-- ===== src/Artifacts/Memory.antt =====
-- `MemoryStore`, over any type of contents with decidable equality and a size. A method returns
-- the new state beside its result, since a batch may raise after it has written.
pub mod Laws
use fabric_shortcut_proxy.Prelude.{
  ℕ, ◌+◌, ◌-◌, ◌≤◌, String, str_eq, Bool, true, false, not, ◌&&◌, ◌||◌, Option, none, some, List,
  [], ◌∷◌, ◌++◌, map, ◌==◌, ltb, leb, if◌then◌else◌, is_some,
}
use fabric_shortcut_proxy.Dict.{Dict, lookup, insert, remove, has_key}
use fabric_shortcut_proxy.Artifacts.Keys.{normalize_key}
use mathlib.Core.Option

-- `ValueError` of a bad key, `ObjectNotFound`, `ObjectConflict`.
pub data Error : Type 0 where
  bad_key not_found conflict : Error

pub data Result (A : Type 0) : Type 0 where
  ok : A → Result A
  raise : Error → Result A

-- `ObjectStat`, without the times that this store does not know.
pub record ObjectStat : Type 0 where
  pub key : String
  pub size : ℕ

abbrev pub on_key : {A : Type 0} → String → Result A → (String → Result A) → Result A
on_key key bad f = elim (normalize_key key) [ none ↦ bad | some k ↦ f k ]

-- What `_fence_matches` reads of a coordination record: `owner_id`, or else `generation_id`, and
-- the numbers, with the defaults that it takes.
pub record FenceView : Type 0 where
  pub owner : Option String
  pub fence : Option ℕ
  pub renew_ms : ℕ
  pub ttl_ms : ℕ
  pub expires_at_ms : ℕ

unfoldable pub is_live : FenceView → ℕ → Bool
is_live v now =
    if ltb 0 v.renew_ms then leb (now - v.renew_ms) v.ttl_ms else ltb now v.expires_at_ms

unfoldable pub view_matches : FenceView → String → ℕ → ℕ → Bool
unfolding is_live
view_matches v owner fence now =
    (elim v.owner [ none ↦ false | some o ↦ str_eq o owner ])
    && (elim v.fence [ none ↦ false | some f ↦ f == fence ])
    && is_live v now

module _ {B : Type 0} where
  unfoldable pub put : (B → ℕ) → String → B → Dict B → Dict B × Result ObjectStat
  put size key content s = elim (normalize_key key) [
    | none ↦ (s, raise bad_key)
    | some k ↦ (insert k content s, ok (record { key = k; size = size content }))
  ]

  found : Option B → Result B
  found none = raise not_found
  found (some b) = ok b

  unfoldable pub get : String → Dict B → Result B
  unfolding found
  get key s = on_key key (raise bad_key) (λ k. found (lookup k s))

  stat : (B → ℕ) → String → Option B → Option ObjectStat
  stat size k none = none
  stat size k (some b) = some (record { key = k; size = size b })

  unfoldable pub head : (B → ℕ) → String → Dict B → Result (Option ObjectStat)
  unfolding stat
  head size key s = on_key key (raise bad_key) (λ k. ok (stat size k (lookup k s)))

  unfoldable pub exists : String → Dict B → Result Bool
  exists key s = on_key key (raise bad_key) (λ k. ok (has_key k s))

  unfoldable pub delete : String → Dict B → Dict B × Result Bool
  delete key s = elim (normalize_key key) [
    | none ↦ (s, raise bad_key)
    | some k ↦ (remove k s, ok (has_key k s))
  ]

  -- `verify`, where `digest` is SHA-256 in hexadecimal.
  unfoldable pub verify : (B → ℕ) → (B → String) → String → ℕ → String → Dict B → Result Bool
  verify size digest key n hash s = on_key key (raise bad_key) (λ k.
      ok (elim (lookup k s) [ none ↦ false | some b ↦ (size b == n) && str_eq (digest b) hash ]))

  module _ (dec : Discrete B) where
    -- `current != expected`
    unfoldable pub same_content : Option B → Option B → Bool
    same_content none none = true
    same_content none (some _) = false
    same_content (some _) none = false
    same_content (some a) (some b) = elim (dec a b) [ yes _ ↦ true | no _ ↦ false ]

    unfoldable pub swap_at : String → Option B → B → Dict B → Dict B × Bool
    unfolding same_content
    swap_at k expected content s =
        if same_content (lookup k s) expected then (insert k content s, true) else (s, false)

    unfoldable pub compare_and_swap : String → Option B → B → Dict B → Dict B × Result Bool
    unfolding swap_at
    compare_and_swap key expected content s = elim (normalize_key key) [
      | none ↦ (s, raise bad_key)
      | some k ↦ (let (s', won) = swap_at k expected content s in (s', ok won))
    ]

    -- `put_stream_if_absent`, on the value that the stream holds.
    unfoldable pub put_if_absent :
        (B → ℕ) → (B → String) → String → B → Dict B → Dict B × Result ObjectStat
    unfolding compare_and_swap verify head
    put_if_absent size digest key content s = elim (normalize_key key) [
      | none ↦ (s, raise bad_key)
      | some k ↦
          let (s', won) = swap_at k none content s in
          if won then (s', ok (record { key = k; size = size content })) else (elim (lookup k s') [
            | none ↦ (s', raise conflict)
            | some b ↦
                if (size b == size content) && str_eq (digest b) (digest content)
                then (s', ok (record { key = k; size = size b }))
                else (s', raise conflict)
          ])
    ]

    -- The loop of the batches: it stops at the first bad key, and keeps what it wrote before.
    unfoldable pub put_all : Dict B → Dict B → Dict B × Result Bool
    put_all [] s = (s, ok true)
    put_all ((key, content) ∷ values) s = elim (normalize_key key) [
      | none ↦ (s, raise bad_key)
      | some k ↦ put_all values (insert k content s)
    ]

    unfoldable pub guarded_put_batch : String → B → Dict B → Dict B → Dict B × Result Bool
    unfolding put_all same_content
    guarded_put_batch guard_key expected values s = elim (normalize_key guard_key) [
      | none ↦ (s, raise bad_key)
      | some g ↦
          if same_content (lookup g s) (some expected) then put_all values s else (s, ok false)
    ]

    module _ (view : B → Option FenceView) (now : ℕ) where
      content_matches : Option B → String → ℕ → Bool
      unfolding view_matches
      content_matches none owner fence = false
      content_matches (some b) owner fence = elim (view b) [
        | none ↦ false
        | some v ↦ view_matches v owner fence now
      ]

      -- `_fence_matches`; `view` is `none` where the record does not decode.
      unfoldable pub fence_matches : String → String → ℕ → Dict B → Result Bool
      unfolding content_matches
      fence_matches fence_key owner fence s =
          on_key fence_key (raise bad_key) (λ k. ok (content_matches (lookup k s) owner fence))

      unfoldable pub fenced_put : String → String → ℕ → String → B → Dict B → Dict B × Result Bool
      unfolding fence_matches
      fenced_put fence_key owner fence key content s =
          elim (fence_matches fence_key owner fence s) [
            | raise e ↦ (s, raise e)
            | ok false ↦ (s, ok false)
            | ok true ↦ elim (normalize_key key) [
              | none ↦ (s, raise bad_key)
              | some k ↦ (insert k content s, ok true)
            ]
          ]

      -- `none` is the refusal of a stale fence.
      unfoldable pub fenced_delete :
          String → String → ℕ → String → Dict B → Dict B × Result (Option Bool)
      unfolding fence_matches
      fenced_delete fence_key owner fence key s = elim (fence_matches fence_key owner fence s) [
        | raise e ↦ (s, raise e)
        | ok false ↦ (s, ok none)
        | ok true ↦ elim (normalize_key key) [
          | none ↦ (s, raise bad_key)
          | some k ↦ (remove k s, ok (some (has_key k s)))
        ]
      ]

      unfoldable pub fenced_guarded_put_batch :
          String → String → ℕ → String → B → Dict B → Dict B → Dict B × Result Bool
      unfolding fence_matches guarded_put_batch
      fenced_guarded_put_batch fence_key owner fence guard_key expected values s =
          elim (fence_matches fence_key owner fence s) [
            | raise e ↦ (s, raise e)
            | ok false ↦ (s, ok false)
            | ok true ↦ guarded_put_batch guard_key expected values s
          ]
