-- ===== src/Dict.antt =====
-- Python's `dict` and `OrderedDict` with string keys: an association list in insertion order.
-- Assignment keeps the place of a key that is there and appends a new one; `pop` drops the key.
use fabric_shortcut_proxy.Prelude.{
  ℕ, ◌+◌, String, str_eq, str_eq_iff, str_eq_refl, ◌≡◌, refl, Bool, true, false, Option, none, some,
  List, [], ◌∷◌, ◌++◌, map, arith, if◌then◌else◌, sum_by, is_some, All, Bool-cases, inl, inr, subst,
  sym,
}

abbrev pub Dict {ℓ} : Type ℓ → Type ℓ
Dict V = List (String × V)

module _ {ℓ} {V : Type ℓ} where
  unfoldable pub lookup : String → Dict V → Option V
  lookup k [] = none
  lookup k ((j, v) ∷ d) = if str_eq j k then some v else lookup k d

  unfoldable pub insert : String → V → Dict V → Dict V
  insert k v [] = (k, v) ∷ []
  insert k v ((j, w) ∷ d) = if str_eq j k then (j, v) ∷ d else (j, w) ∷ insert k v d

  unfoldable pub remove : String → Dict V → Dict V
  remove k [] = []
  remove k ((j, v) ∷ d) = let rest = remove k d in if str_eq j k then rest else (j, v) ∷ rest

  abbrev pub has_key : String → Dict V → Bool
  has_key k d = is_some (lookup k d)

  abbrev pub keys : Dict V → List String
  keys d = map (λ e. e.0) d

  -- No key stands twice, which is what every dict built by `insert` and `remove` has.
  abbrev pub IsDistinct : Dict V → Type 0
  IsDistinct [] = Unit
  IsDistinct ((k, v) ∷ d) = (has_key k d ≡ false) × IsDistinct d

  pub lookup-insert :
      (k j : String) (v : V) (d : Dict V)
      → lookup j (insert k v d) ≡ (if str_eq k j then some v else lookup j d)
  unfolding lookup insert
  lookup-insert k j v [] = refl
  lookup-insert k j v ((i, w) ∷ d) =
      ground (arith, str_eq_iff k j, str_eq_iff i k, str_eq_iff i j, lookup-insert k j v d)

  pub lookup-remove :
      (k j : String) (d : Dict V)
      → lookup j (remove k d) ≡ (if str_eq k j then none else lookup j d)
  unfolding lookup remove
  lookup-remove k j [] = ground arith
  lookup-remove k j ((i, w) ∷ d) =
      ground (arith, str_eq_iff k j, str_eq_iff i k, str_eq_iff i j, lookup-remove k j d)

  pub lookup-append :
      (k : String) (d e : Dict V)
      → lookup k (d ++ e) ≡ (if has_key k d then lookup k d else lookup k e)
  unfolding lookup
  lookup-append k [] e = refl
  lookup-append k ((j, v) ∷ d) e = ground (arith, lookup-append k d e)

  pub IsDistinct-insert :
      (k : String) (v : V) (d : Dict V) → IsDistinct d → IsDistinct (insert k v d)
  unfolding insert lookup
  IsDistinct-insert k v [] h = (refl, tt)
  IsDistinct-insert k v ((j, w) ∷ d) h =
      ground
        (arith, IsDistinct-insert k v d h.1, lookup-insert k j v d, str_eq_iff j k, str_eq_iff k j)

  pub IsDistinct-remove : (k : String) (d : Dict V) → IsDistinct d → IsDistinct (remove k d)
  unfolding remove lookup
  IsDistinct-remove k [] h = h
  IsDistinct-remove k ((j, w) ∷ d) h =
      ground (arith, IsDistinct-remove k d h.1, lookup-remove k j d)

  pub remove_absent : (k : String) (d : Dict V) → lookup k d ≡ none → remove k d ≡ d
  unfolding remove lookup
  remove_absent k [] h = refl
  remove_absent k ((j, w) ∷ d) h = ground (arith, remove_absent k d)

  -- A sum over the entries loses exactly the removed entry.
  pub sum_by-remove :
      (w : String × V → ℕ) (k : String) (v : V) (d : Dict V)
      → IsDistinct d
      → lookup k d ≡ some v
      → sum_by w (remove k d) + w (k, v) ≡ sum_by w d
  unfolding remove lookup
  sum_by-remove w k v [] h e = ground arith
  sum_by-remove w k v ((j, x) ∷ d) h e =
      ground (arith, str_eq_iff j k, sum_by-remove w k v d h.1, remove_absent k d)

  pub insert_absent :
      (k : String) (v : V) (d : Dict V) → lookup k d ≡ none → insert k v d ≡ d ++ (k, v) ∷ []
  unfolding insert lookup
  insert_absent k v [] h = refl
  insert_absent k v ((j, w) ∷ d) h = ground (arith, insert_absent k v d)

  pub IsDistinct-append_one :
      (k : String) (v : V) (d : Dict V)
      → IsDistinct d
      → lookup k d ≡ none
      → IsDistinct (d ++ (k, v) ∷ [])
  IsDistinct-append_one k v d h e = rw (← insert_absent k v d e) (IsDistinct-insert k v d h)

  pub lookup-remove_self : (k : String) (d : Dict V) → lookup k (remove k d) ≡ none
  lookup-remove_self k d = rw (lookup-remove k k d, str_eq_refl k)

  pub All-insert {κ} :
      (P : String × V → Type κ) (k : String) (v : V) (d : Dict V)
      → P (k, v)
      → All P d
      → All P (insert k v d)
  unfolding insert
  All-insert P k v [] p h = (p, tt)
  All-insert P k v ((j, w) ∷ d) p h = elim (Bool-cases (str_eq j k)) [
    | inl same ↦ rw same (subst (λ i. P (i, v)) (sym ((str_eq_iff j k).0 same)) p, h.1)
    | inr other ↦ rw other (h.0, All-insert P k v d p h.1)
  ]

  pub All-remove {κ} :
      (P : String × V → Type κ) (k : String) (d : Dict V) → All P d → All P (remove k d)
  unfolding remove
  All-remove P k [] h = tt
  All-remove P k ((j, w) ∷ d) h = elim (Bool-cases (str_eq j k)) [
    | inl same ↦ rw same (All-remove P k d h.1)
    | inr other ↦ rw other (h.0, All-remove P k d h.1)
  ]

  -- What holds of all entries holds of the one that is found.
  pub All-lookup {κ} :
      (P : String × V → Type κ) (k : String) (v : V) (d : Dict V)
      → All P d
      → lookup k d ≡ some v
      → P (k, v)
  unfolding lookup
  All-lookup P k v [] h e = cc
  All-lookup P k v ((j, w) ∷ d) h e = elim (Bool-cases (str_eq j k)) [
    | inl same ↦
        let found : w ≡ v = ground (arith, same, e) in
        subst (λ x. P (k, x)) found (subst (λ i. P (i, w)) ((str_eq_iff j k).0 same) h.0)
    | inr other ↦ All-lookup P k v d h.1 (ground (arith, other, e))
  ]

  -- The records of a store: each key once, and every record under its own id.
  abbrev pub IsStored : (V → String) → Dict V → Type 0
  IsStored id_of d = IsDistinct d × All (λ e. str_eq e.0 (id_of e.1) ≡ true) d

  pub IsStored-insert :
      (id_of : V → String) (v : V) (d : Dict V)
      → IsStored id_of d
      → IsStored id_of (insert (id_of v) v d)
  IsStored-insert id_of v d h = (
    IsDistinct-insert (id_of v) v d h.0,
    All-insert (λ e. str_eq e.0 (id_of e.1) ≡ true) (id_of v) v d (str_eq_refl (id_of v)) h.1,
  )

  pub IsStored-remove :
      (id_of : V → String) (k : String) (d : Dict V)
      → IsStored id_of d
      → IsStored id_of (remove k d)
  IsStored-remove id_of k d h =
      (IsDistinct-remove k d h.0, All-remove (λ e. str_eq e.0 (id_of e.1) ≡ true) k d h.1)
