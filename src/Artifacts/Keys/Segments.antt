-- ===== src/Artifacts/Keys/Segments.antt =====
-- What `_normalize_key` of src/fabric_shortcut_proxy/runtime/artifact_store.py accepts, as segments.
use Prim.Native.Char.{Char}
use fabric_shortcut_proxy.Prelude.{
  Bool, true, false, not, ◌&&◌, Option, none, some, List, [], ◌∷◌, map, ◌≡◌, refl, all, All, arith,
  Bool-cases, Option-cases, inl, inr,
}
use fabric_shortcut_proxy.Artifacts.Keys.{
  Chars, is_slash, is_backslash, forward, lstrip, keep, rstrip, extend, split, join, is_word,
  is_skipped, clean, joined_key, parts_of, normalize,
}

abbrev pub no_backslash : Chars → Bool
no_backslash cs = all (λ c. not (is_backslash c)) cs

-- A character that stands within a segment.
abbrev pub is_plain : Char → Bool
is_plain c = not (is_slash c) && not (is_backslash c)

-- A segment without separators that is neither empty nor a dot segment.
pub record IsSegment (seg : Chars) : Type 0 where
  pub plain : all is_plain seg ≡ true
  pub proper : is_skipped seg ≡ false
  pub inside : is_word ".." seg ≡ false

-- A key that names an object below the root, and only itself.
pub record IsKey (k : Chars) : Type 0 where
  pub first : Chars
  pub rest : List Chars
  pub segments : All IsSegment (first ∷ rest)
  pub joins : k ≡ join (first ∷ rest)

forward-no_backslash : (cs : Chars) → no_backslash (map forward cs) ≡ true
forward-no_backslash [] = refl
forward-no_backslash (c ∷ cs) = elim (Bool-cases (is_backslash c)) [
  | inl back ↦ rw back (forward-no_backslash cs)
  | inr other ↦ rw other (rw other (forward-no_backslash cs))
]

lstrip-no_backslash : (cs : Chars) → no_backslash cs ≡ true → no_backslash (lstrip cs) ≡ true
unfolding lstrip
lstrip-no_backslash [] h = refl
lstrip-no_backslash (c ∷ cs) h = ground (arith, lstrip-no_backslash cs)

keep-no_backslash :
    (c : Char) (cs : Chars)
    → not (is_backslash c) ≡ true
    → no_backslash cs ≡ true
    → no_backslash (keep c cs) ≡ true
keep-no_backslash c [] h k = ground arith
keep-no_backslash c (d ∷ ds) h k = ground arith

rstrip-no_backslash : (cs : Chars) → no_backslash cs ≡ true → no_backslash (rstrip cs) ≡ true
unfolding rstrip
rstrip-no_backslash [] h = refl
rstrip-no_backslash (c ∷ cs) h =
    keep-no_backslash c (rstrip cs) (ground arith) (rstrip-no_backslash cs (ground arith))

extend-plain :
    (c : Char) (segs : List Chars)
    → is_plain c ≡ true
    → All (λ seg. all is_plain seg ≡ true) segs
    → All (λ seg. all is_plain seg ≡ true) (extend c segs)
extend-plain c [] h k = (ground arith, tt)
extend-plain c (seg ∷ segs) h k = (ground arith, k.1)

split-plain :
    (cs : Chars) → no_backslash cs ≡ true → All (λ seg. all is_plain seg ≡ true) (split cs)
unfolding split
split-plain [] h = (refl, tt)
split-plain (c ∷ cs) h =
    let ih = split-plain cs (ground arith) in
    elim (Bool-cases (is_slash c)) [
      | inl sep ↦ rw sep (refl, ih)
      | inr other ↦ rw other (extend-plain c (split cs) (ground arith) ih)
    ]

clean-segments :
    (segs parts : List Chars)
    → All (λ seg. all is_plain seg ≡ true) segs
    → clean segs ≡ some parts
    → All IsSegment parts
unfolding clean
clean-segments [] [] h e = tt
clean-segments [] (p ∷ ps) h e = cc
clean-segments (seg ∷ segs) parts h e = elim (Bool-cases (is_skipped seg)) [
  | inl skip ↦ clean-segments segs parts h.1 (rw skip at e)
  | inr proper ↦ elim (Bool-cases (is_word ".." seg)) [
    | inl up ↦ ground arith
    | inr inside ↦ elim (Option-cases (clean segs)) [
      | inl bad ↦ ground arith
      | inr (rest, good) ↦
          let same : parts ≡ seg ∷ rest = ground arith in
          rw same (
            record { plain = h.0; proper = proper; inside = inside },
            clean-segments segs rest h.1 good,
          )
    ]
  ]
]

joined_key-IsKey :
    (segs : List Chars) (k : Chars)
    → All (λ seg. all is_plain seg ≡ true) segs
    → joined_key (clean segs) ≡ some k
    → IsKey k
joined_key-IsKey segs k h e = go (clean segs) refl e
  where
    go : (o : Option (List Chars)) → clean segs ≡ o → joined_key o ≡ some k → IsKey k
    go none c q = cc
    go (some []) c q = cc
    go (some (p ∷ ps)) c q = record {
      first = p;
      rest = ps;
      segments = clean-segments segs (p ∷ ps) h c;
      joins = cc;
    }

parts_of-IsKey : (cs k : Chars) → no_backslash cs ≡ true → parts_of cs ≡ some k → IsKey k
parts_of-IsKey [] k h e = cc
parts_of-IsKey (c ∷ cs) k h e = joined_key-IsKey (split (c ∷ cs)) k (split-plain (c ∷ cs) h) e

pub normalize-IsKey : (cs k : Chars) → normalize cs ≡ some k → IsKey k
unfolding normalize
normalize-IsKey [] k e = cc
normalize-IsKey (c ∷ cs) k e =
    parts_of-IsKey (rstrip (lstrip (map forward (c ∷ cs)))) k
      (rstrip-no_backslash (lstrip (map forward (c ∷ cs)))
        (lstrip-no_backslash (map forward (c ∷ cs)) (forward-no_backslash (c ∷ cs))))
      e
