-- ===== src/Artifacts/Keys/Clean.antt =====
-- What `_normalize_key` accepts: keys of plain segments, which it leaves as they are.
use Prim.Native.Char.{Char}
use text.Mathlib.TextBridge.{of_list}
use fabric_shortcut_proxy.Prelude.{
  String, true, false, some, List, [], ◌∷◌, ◌++◌, map, ◌≡◌, refl, ap, all, All, arith, Option-cases,
  inl, inr, ◌∙◌, sym, subst,
}
use fabric_shortcut_proxy.Artifacts.Keys.{
  Chars, chars, slash, is_slash, is_backslash, forward, lstrip, keep, rstrip, split, join, clean,
  joined_key, parts_of, normalize, normalize_key,
}
use mathlib.Core.Option
use fabric_shortcut_proxy.Artifacts.Keys.Segments.{
  no_backslash, is_plain, IsSegment, IsKey, normalize-IsKey,
}

-- The other direction: a key of plain segments is left as it is.
forward_plain : (cs : Chars) → no_backslash cs ≡ true → map forward cs ≡ cs
forward_plain [] h = refl
forward_plain (c ∷ cs) h =
    let here : is_backslash c ≡ false = ground arith in
    rw here (ap (◌∷◌ c) (forward_plain cs (ground arith)))

plain-no_backslash : (cs : Chars) → all is_plain cs ≡ true → no_backslash cs ≡ true
plain-no_backslash [] h = refl
plain-no_backslash (c ∷ cs) h = ground (arith, plain-no_backslash cs)

no_backslash-append :
    (xs ys : Chars)
    → no_backslash xs ≡ true
    → no_backslash ys ≡ true
    → no_backslash (xs ++ ys) ≡ true
no_backslash-append [] ys h k = k
no_backslash-append (x ∷ xs) ys h k = ground (arith, no_backslash-append xs ys)

split-plain_segment : (seg : Chars) → all is_plain seg ≡ true → split seg ≡ seg ∷ []
unfolding split
split-plain_segment [] h = refl
split-plain_segment (c ∷ cs) h =
    let here : is_slash c ≡ false = ground arith in
    rw here (rw (split-plain_segment cs (ground arith)) refl)

split-append :
    (seg rest : Chars) → all is_plain seg ≡ true → split (seg ++ slash ∷ rest) ≡ seg ∷ split rest
unfolding split
split-append [] rest h = refl
split-append (c ∷ cs) rest h =
    let here : is_slash c ≡ false = ground arith in
    rw here (rw (split-append cs rest (ground arith)) refl)

split-join :
    (seg : Chars) (segs : List Chars)
    → All IsSegment (seg ∷ segs)
    → split (join (seg ∷ segs)) ≡ seg ∷ segs
unfolding join
split-join seg [] h = split-plain_segment seg h.0.plain
split-join seg (next ∷ segs) h =
    split-append seg (join (next ∷ segs)) h.0.plain ∙ ap (◌∷◌ seg) (split-join next segs h.1)

clean-All : (segs : List Chars) → All IsSegment segs → clean segs ≡ some segs
unfolding clean
clean-All [] h = refl
clean-All (seg ∷ segs) h = rw (h.0.proper, h.0.inside) (rw (clean-All segs h.1) refl)

join-no_backslash :
    (seg : Chars) (segs : List Chars)
    → All IsSegment (seg ∷ segs)
    → no_backslash (join (seg ∷ segs)) ≡ true
unfolding join
join-no_backslash seg [] h = plain-no_backslash seg h.0.plain
join-no_backslash seg (next ∷ segs) h =
    no_backslash-append seg (slash ∷ join (next ∷ segs)) (plain-no_backslash seg h.0.plain)
      (join-no_backslash next segs h.1)

-- A proper segment has a first character, and stripping keeps what begins and ends with one.
join_cons :
    (seg : Chars) (segs : List Chars)
    → All IsSegment (seg ∷ segs)
    → (c : Char) × (cs : Chars) × (join (seg ∷ segs) ≡ c ∷ cs) × (is_slash c ≡ false)
unfolding join
join_cons [] segs h = let bad : true ≡ false = h.0.proper in cc
join_cons (c ∷ cs) [] h = (c, cs, refl, ground (arith, h.0.plain))
join_cons (c ∷ cs) (next ∷ segs) h =
    (c, cs ++ slash ∷ join (next ∷ segs), refl, ground (arith, h.0.plain))

keep-plain : (c : Char) (cs : Chars) → is_slash c ≡ false → keep c cs ≡ c ∷ cs
keep-plain c [] h = rw h
keep-plain c (d ∷ ds) h = refl

keep-append :
    (x : Char) (xs : Chars) (d : Char) (ds : Chars) → keep x (xs ++ d ∷ ds) ≡ x ∷ (xs ++ d ∷ ds)
keep-append x [] d ds = refl
keep-append x (y ∷ ys) d ds = refl

rstrip-append :
    (xs : Chars) (d : Char) (ds : Chars)
    → rstrip (d ∷ ds) ≡ d ∷ ds
    → rstrip (xs ++ d ∷ ds) ≡ xs ++ d ∷ ds
unfolding rstrip
rstrip-append [] d ds h = h
rstrip-append (x ∷ xs) d ds h = rw (rstrip-append xs d ds h) (keep-append x xs d ds)

rstrip-plain : (seg : Chars) → all is_plain seg ≡ true → rstrip seg ≡ seg
unfolding rstrip
rstrip-plain [] h = refl
rstrip-plain (c ∷ cs) h = rw (rstrip-plain cs (ground arith)) (keep-plain c cs (ground arith))

rstrip-slash :
    (c : Char) (cs : Chars) → rstrip (c ∷ cs) ≡ c ∷ cs → rstrip (slash ∷ c ∷ cs) ≡ slash ∷ c ∷ cs
unfolding rstrip
rstrip-slash c cs h = rw h

rstrip-join :
    (seg : Chars) (segs : List Chars)
    → All IsSegment (seg ∷ segs)
    → rstrip (join (seg ∷ segs)) ≡ join (seg ∷ segs)
unfolding join
rstrip-join seg [] h = rstrip-plain seg h.0.plain
rstrip-join seg (next ∷ segs) h =
    let (c, cs, e, _) = join_cons next segs h.1 in
    let tail : rstrip (c ∷ cs) ≡ c ∷ cs = subst (λ x. rstrip x ≡ x) e (rstrip-join next segs h.1) in
    rw e (rstrip-append seg slash (c ∷ cs) (rstrip-slash c cs tail))

lstrip-cons : (c : Char) (cs : Chars) → is_slash c ≡ false → lstrip (c ∷ cs) ≡ c ∷ cs
unfolding lstrip
lstrip-cons c cs h = rw h

normalize-join :
    (seg : Chars) (segs : List Chars)
    → All IsSegment (seg ∷ segs)
    → normalize (join (seg ∷ segs)) ≡ some (join (seg ∷ segs))
unfolding normalize
normalize-join seg segs h =
    let (c, cs, e, plain) = join_cons seg segs h in
    let same : map forward (c ∷ cs) ≡ c ∷ cs =
      subst (λ x. map forward x ≡ x) e
        (forward_plain (join (seg ∷ segs)) (join-no_backslash seg segs h)) in
    let left : lstrip (c ∷ cs) ≡ c ∷ cs = lstrip-cons c cs plain in
    let right : rstrip (c ∷ cs) ≡ c ∷ cs = subst (λ x. rstrip x ≡ x) e (rstrip-join seg segs h) in
    let segments : split (c ∷ cs) ≡ seg ∷ segs =
      subst (λ x. split x ≡ seg ∷ segs) e (split-join seg segs h) in
    let stripped : rstrip (lstrip (map forward (c ∷ cs))) ≡ c ∷ cs =
      ap (λ x. rstrip (lstrip x)) same ∙ ap rstrip left ∙ right in
    ap normalize e
    ∙ ap parts_of stripped
    ∙ ap (λ x. joined_key (clean x)) segments
    ∙ ap joined_key (clean-All (seg ∷ segs) h)

chars-of_list : (cs : Chars) → chars (of_list cs) ≡ cs
chars-of_list [] = refl
chars-of_list (c ∷ cs) = ap (◌∷◌ c) (chars-of_list cs)

-- A key that `_normalize_key` returns is made of plain segments, none of them empty, `.` or `..`,
-- with no slash at an end; it is a fixed point, so that storing under it and reading by it agree.
pub normalize_key-IsKey :
    (key k : String) → normalize_key key ≡ some k → IsKey (chars k) × (normalize_key k ≡ some k)
unfolding normalize_key
normalize_key-IsKey key k e = elim (Option-cases (normalize (chars key))) [
  | inl bad ↦ absurd (ground arith)
  | inr (cs, good) ↦
      let text : of_list cs ≡ k = ground arith in
      let v = normalize-IsKey (chars key) cs good in
      let same : chars k ≡ cs = rw (← text) (chars-of_list cs) in
      (
        rw same v,
        rw (same, v.joins)
            (ap (Option.map of_list) (normalize-join v.first v.rest v.segments)
              ∙ ap some (ap of_list (sym v.joins) ∙ text)),
      )
]
