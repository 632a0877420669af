-- ===== src/Artifacts/Memory/Laws.antt =====
-- What `MemoryStore` promises: reads after writes, the compare-and-swap register, immutable keys,
-- and fenced writes.
use fabric_shortcut_proxy.Prelude.{
  ℕ, ◌+◌, ◌≤◌, ◌<◌, String, str_eq, str_eq_iff, str_eq_refl, true, false, ◌&&◌, Option, none, some,
  ◌==◌, ltb, if◌then◌else◌, ◌≡◌, ◌≢◌, ◌⊎◌, refl, ap, ◌∙◌, arith, Bool-cases, Option-cases, inl, inr,
}
use fabric_shortcut_proxy.Dict.{Dict, lookup, insert, lookup-insert, lookup-remove}
use fabric_shortcut_proxy.Artifacts.Keys.{normalize_key}
use fabric_shortcut_proxy.Artifacts.Register.{Register}
use fabric_shortcut_proxy.Artifacts.Memory.{
  Error, bad_key, not_found, conflict, ok, raise, FenceView, is_live, view_matches, put, get,
  delete, found, same_content, swap_at, compare_and_swap, put_if_absent, fence_matches,
  content_matches, fenced_put,
}

module _ {B : Type 0} where
  -- Two keys name the same object exactly when they normalise alike: a read after a write gives
  -- the new content under every such key, and under any other key what was there.
  pub get-put :
      (size : B → ℕ) (key other k : String) (content : B) (s : Dict B)
      → normalize_key key ≡ some k
      → get other (put size key content s).0 ≡ (
          if (elim (normalize_key other) [ none ↦ false | some o ↦ str_eq k o ])
          then ok content
          else get other s)
  unfolding get put found
  get-put size key other k content s e = elim (Option-cases (normalize_key other)) [
    | inl bad ↦ ground (arith, bad)
    | inr (o, good) ↦ ground (arith, good, lookup-insert k o content s)
  ]

  pub get-delete :
      (key other k : String) (s : Dict B)
      → normalize_key key ≡ some k
      → get other (delete key s).0 ≡ (
          if (elim (normalize_key other) [ none ↦ false | some o ↦ str_eq k o ])
          then raise not_found
          else get other s)
  unfolding get delete found
  get-delete key other k s e = elim (Option-cases (normalize_key other)) [
    | inl bad ↦ ground (arith, bad)
    | inr (o, good) ↦ ground (arith, good, lookup-remove k o s)
  ]

  -- What was deleted cannot be read by the key that deleted it.
  pub get-delete_self :
      (key : String) (s : Dict B) → (e : Error) × (get key (delete key s).0 ≡ raise e)
  unfolding get
  get-delete_self key s = elim (Option-cases (normalize_key key)) [
    | inl bad ↦ (bad_key, ground arith)
    | inr (k, good) ↦ (not_found, get-delete key key k s good ∙ ground (arith, good, str_eq_refl k))
  ]

  module _ (dec : Discrete B) where
    same_content-eq : (a b : Option B) → same_content dec a b ≡ true → a ≡ b
    unfolding same_content
    same_content-eq none none h = refl
    same_content-eq none (some b) h = cc
    same_content-eq (some a) none h = cc
    same_content-eq (some a) (some b) h = elim (dec a b) [ yes p ↦ ap some p | no p ↦ ground arith ]

    same_content-ne : (a b : Option B) → same_content dec a b ≡ false → a ≢ b
    unfolding same_content
    same_content-ne none none h e = cc
    same_content-ne none (some b) h e = cc
    same_content-ne (some a) none h e = cc
    same_content-ne (some a) (some b) h e = ground arith

    pub swap_at-won :
        (k : String) (expected : Option B) (content : B) (s : Dict B)
        → (swap_at dec k expected content s).1 ≡ true
        → (lookup k s ≡ expected) × (lookup k (swap_at dec k expected content s).0 ≡ some content)
    unfolding swap_at
    swap_at-won k expected content s h =
        elim (Bool-cases (same_content dec (lookup k s) expected)) [
          | inl same ↦ (
            same_content-eq (lookup k s) expected same,
            rw same (rw (lookup-insert k k content s) (rw (str_eq_refl k))),
          )
          | inr other ↦ ground arith
        ]

    pub swap_at-lost :
        (k : String) (expected : Option B) (content : B) (s : Dict B)
        → (swap_at dec k expected content s).1 ≡ false
        → (lookup k s ≢ expected) × ((swap_at dec k expected content s).0 ≡ s)
    unfolding swap_at
    swap_at-lost k expected content s h =
        elim (Bool-cases (same_content dec (lookup k s) expected)) [
          | inl same ↦ ground arith
          | inr other ↦ (same_content-ne (lookup k s) expected other, rw other)
        ]

    -- The store at one key is the register that the coordination code relies on.
    abbrev pub register_at : String → Register B
    register_at k = record {
      Store = Dict B;
      read = lookup k;
      swap = swap_at dec k;
      swap_won = swap_at-won k;
      swap_lost = swap_at-lost k;
    }

    -- `compare_and_swap` at a good key writes exactly if the whole content is the expected one, and
    -- says so; at a bad key it raises and writes nothing.
    pub compare_and_swap_exact :
        (key : String) (expected : Option B) (content : B) (s : Dict B)
        → ((k : String)
            → normalize_key key ≡ some k
            → let o = compare_and_swap dec key expected content s in
              ((lookup k s ≡ expected) × (o ≡ (insert k content s, ok true)))
              ⊎ ((lookup k s ≢ expected) × (o ≡ (s, ok false))))
          × (normalize_key key ≡ none
              → compare_and_swap dec key expected content s ≡ (s, raise bad_key))
    unfolding compare_and_swap swap_at
    compare_and_swap_exact key expected content s = (
      λ k good. elim (Bool-cases (same_content dec (lookup k s) expected)) [
        | inl same ↦
            inl (
              same_content-eq (lookup k s) expected same,
              rw (good, compare_and_swap) (rw same refl),
            )
        | inr other ↦ inr (
          same_content-ne (lookup k s) expected other,
          rw (good, compare_and_swap) (rw other refl),
        )
      ],
      λ bad. rw (bad, compare_and_swap) refl,
    )

    -- An immutable key keeps its content: a second `put_stream_if_absent` changes nothing, and
    -- succeeds exactly if size and digest agree.
    pub put_if_absent_immutable :
        (size : B → ℕ) (digest : B → String) (key k : String) (content stored : B) (s : Dict B)
        → normalize_key key ≡ some k
        → lookup k s ≡ some stored
        → let o = put_if_absent dec size digest key content s in
          (o.0 ≡ s)
          × (o.1 ≡ (
              if (size stored == size content) && str_eq (digest stored) (digest content)
              then ok (record { key = k; size = size stored })
              else raise conflict))
    unfolding put_if_absent swap_at same_content
    put_if_absent_immutable size digest key k content stored s good there =
        rw (good, put_if_absent) (rw there (rw there (ground arith)))

    -- A key that is absent takes the content.
    pub put_if_absent-get :
        (size : B → ℕ) (digest : B → String) (key k : String) (content : B) (s : Dict B)
        → normalize_key key ≡ some k
        → lookup k s ≡ none
        → get key (put_if_absent dec size digest key content s).0 ≡ ok content
    unfolding put_if_absent swap_at same_content get found
    put_if_absent-get size digest key k content s good there =
        ground (arith, lookup-insert k k content s, str_eq_refl k)

    module _ (view : B → Option FenceView) (now : ℕ) where
      -- The record under the fence key names this owner and fence, and has not run out.
      pub record Held (owner : String) (fence : ℕ) (at : Option B) : Type 0 where
        pub content : B
        pub there : at ≡ some content
        pub shown : FenceView
        pub decodes : view content ≡ some shown
        pub owned : shown.owner ≡ some owner
        pub term : shown.fence ≡ some fence
        pub lives :
            ((0 < shown.renew_ms) × (now ≤ shown.renew_ms + shown.ttl_ms))
            ⊎ ((shown.renew_ms ≡ 0) × (now < shown.expires_at_ms))

      shown-lives :
          (v : FenceView)
          → is_live v now ≡ true
          → ((0 < v.renew_ms) × (now ≤ v.renew_ms + v.ttl_ms))
            ⊎ ((v.renew_ms ≡ 0) × (now < v.expires_at_ms))
      unfolding is_live
      shown-lives v h = elim (Bool-cases (ltb 0 v.renew_ms)) [
        | inl renewed ↦ inl (ground arith, ground arith)
        | inr fixed ↦ inr (ground arith, ground arith)
      ]

      content_matches-Held :
          (owner : String) (fence : ℕ) (at : Option B)
          → content_matches dec view now at owner fence ≡ true
          → Held owner fence at
      unfolding content_matches view_matches
      content_matches-Held owner fence none h = cc
      content_matches-Held owner fence (some b) h = elim (Option-cases (view b)) [
        | inl bad ↦ ground arith
        | inr (v, good) ↦
            let m : view_matches v owner fence now ≡ true = ground arith in
            elim (Option-cases v.owner) [
              | inl nobody ↦ ground arith
              | inr (o, named) ↦ record {
                content = b;
                there = refl;
                shown = v;
                decodes = good;
                owned = ground (arith, str_eq_iff o owner);
                term = ground arith;
                lives = shown-lives v (ground arith);
              }
            ]
      ]

      -- `fenced_put` writes only while the record under the fence key names the live owner and
      -- fence; on every other outcome the store is as it was.
      pub fenced_put_guarded :
          (fence_key owner : String) (fence : ℕ) (key g k : String) (content : B) (s : Dict B)
          → normalize_key fence_key ≡ some g
          → normalize_key key ≡ some k
          → let o = fenced_put dec view now fence_key owner fence key content s in
            (Held owner fence (lookup g s) × (o ≡ (insert k content s, ok true)))
            ⊎ (o ≡ (s, ok false))
      unfolding fenced_put fence_matches
      fenced_put_guarded fence_key owner fence key g k content s fenced good =
          elim (Bool-cases (content_matches dec view now (lookup g s) owner fence)) [
            | inl held ↦ inl (content_matches-Held owner fence (lookup g s) held, ground arith)
            | inr stale ↦ inr (ground arith)
          ]
