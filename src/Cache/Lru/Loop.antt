-- ===== src/Cache/Lru/Loop.antt =====
-- The loop of `put` in src/fabric_shortcut_proxy/cache/lru_cache.py ends.
use fabric_shortcut_proxy.Prelude.{
  ℕ, zero, suc, ◌≤◌, ◌<◌, String, ◌≡◌, refl, sym, ap, ◌∙◌, true, false, [], ◌∷◌, length, arith,
  Bool-cases, List-cases, inl, inr, str_eq_refl,
}
use fabric_shortcut_proxy.Dict.{Dict, remove}
use fabric_shortcut_proxy.Cache.Lru.{Entry, Lru, is_over, evict_first, evict_oldest, shrink}
use fabric_shortcut_proxy.Cache.Lru.Bounds.{store-evict}

length-remove : (key : String) (d : Dict Entry) → length (remove key d) ≤ length d
unfolding remove
length-remove key [] = omega arith
length-remove key ((k, e) ∷ d) = ground (arith, length-remove key d)

remove-head : (key : String) (e : Entry) (d : Dict Entry) → remove key ((key, e) ∷ d) ≡ remove key d
unfolding remove
remove-head key e d = rw (str_eq_refl key) refl

-- A turn of the loop takes at least one entry.
length-evict_oldest :
    (need : ℕ) (c : Lru) → is_over need c ≡ true → length (evict_oldest c).store < length c.store
unfolding is_over evict_oldest evict_first
length-evict_oldest need c over = elim (List-cases c.store) [
  | inl empty ↦ ground (arith, empty, over)
  | inr ((k, e), r, p) ↦
      let turn : (evict_first c.store c).store ≡ remove k r =
        ap (λ d. (evict_first d c).store) p
        ∙ store-evict k c
        ∙ ap (remove k) p
        ∙ remove-head k e r in
      omega (arith, ap length turn, ap length p, length-remove k r)
]

shrink-over :
    (fuel need : ℕ) (c : Lru)
    → is_over need c ≡ true
    → shrink (suc fuel) need c ≡ shrink fuel need (evict_oldest c)
unfolding shrink
shrink-over fuel need c over = rw (shrink, over) refl

shrink-done : (fuel need : ℕ) (c : Lru) → is_over need c ≡ false → shrink fuel need c ≡ c
unfolding shrink
shrink-done zero need c done = refl
shrink-done (suc fuel) need c done = rw (shrink, done) refl

empty_done : (need : ℕ) (c : Lru) → length c.store ≤ 0 → is_over need c ≡ false
unfolding is_over
empty_done need c h = elim (List-cases c.store) [
  | inl empty ↦ ground (arith, empty)
  | inr (e, r, p) ↦ absurd (omega (arith, h, ap length p))
]

-- The loop of `put` comes to an end on any cache: with as many turns as there are entries its
-- condition is false at the end, and more turns change nothing.
pub shrink_ends :
    (fuel more need : ℕ) (c : Lru)
    → length c.store ≤ fuel
    → fuel ≤ more
    → (is_over need (shrink fuel need c) ≡ false) × (shrink more need c ≡ shrink fuel need c)
shrink_ends zero more need c enough less =
    let done = empty_done need c enough in
    (
      ap (is_over need) (shrink-done 0 need c done) ∙ done,
      shrink-done more need c done ∙ sym (shrink-done 0 need c done),
    )
shrink_ends (suc fuel) zero need c enough less = absurd (omega (arith, less))
shrink_ends (suc fuel) (suc more) need c enough less = elim (Bool-cases (is_over need c)) [
  | inr done ↦ (
    ap (is_over need) (shrink-done (suc fuel) need c done) ∙ done,
    shrink-done (suc more) need c done ∙ sym (shrink-done (suc fuel) need c done),
  )
  | inl over ↦
      let rest =
        shrink_ends fuel more need (evict_oldest c)
          (omega (arith, enough, length-evict_oldest need c over)) (omega (arith, less)) in
      let step = shrink-over fuel need c over in
      (ap (is_over need) step ∙ rest.0, shrink-over more need c over ∙ rest.1 ∙ sym step)
]
