-- ===== src/Lease/Fleet/Exclusive.antt =====
-- No two Managers hold one fence, however their reads and swaps interleave.
use fabric_shortcut_proxy.Prelude.{
  ℕ, ◌≤◌, ◌<◌, String, str_eq, str_eq_iff, ◌≡◌, ◌≢◌, refl, true, Option, none, some, arith,
  Bool-cases, inl, inr, ap, ◌∙◌, subst,
}
use fabric_shortcut_proxy.Dict.{Dict}
use fabric_shortcut_proxy.Artifacts.Register.{Register}
use fabric_shortcut_proxy.Lease.Record.{
  LeaseRecord, Raw, object, fence_of, owned_by, fence_is, new_record,
}
use fabric_shortcut_proxy.Lease.Leader.{
  LeaderLease, lose, Plan, failed, stand_by, take, decide, claim, hold, commit, carry_out,
}
use fabric_shortcut_proxy.Lease.Durable.{with_state}
use fabric_shortcut_proxy.Lease.Fleet.{
  cell_fence, cell_owner, owned_by-owner, Advances, PlanAdvances, decide-Advances, update, Fleet,
  after, Step, acquire, mutate, release, lapse, Reach, start, next, fence_now, IsFenced, swap-cases,
}

module _ (reg : Register Raw) where
  -- A Manager that gives up its fence leaves the others as they are.
  drop-IsFenced :
      {f : Fleet reg} (o : String) (l : LeaderLease)
      → IsFenced reg f
      → l.owner_id ≡ (f.lease o).owner_id
      → l.fence ≡ 0
      → IsFenced reg (record f { lease = update o l f.lease })
  drop-IsFenced {f} o l v same gone = record {
    named = λ p. ground (arith, v.named p, v.named o, str_eq_iff o p);
    below = λ p. ground (arith, v.below p);
    unique = λ p pos now. ground (arith, v.unique p);
    apart = λ p q other pos e. ground (arith, v.apart p q other);
  }

  -- A won swap that advances the fence, or writes this owner's own record again.
  claim-IsFenced :
      {f : Fleet reg} (o : String) (now fence : ℕ) (state : Option (Dict String))
      (seen : Option Raw) (s : reg.Store)
      → IsFenced reg f
      → reg.read f.store ≡ seen
      → reg.read s ≡ some (claim (f.lease o) now fence state)
      → Advances o seen fence
      → IsFenced reg (record { store = s; lease = update o (hold (f.lease o) fence) f.lease })
  claim-IsFenced {f} o now fence state seen s v there new adv =
      let new_fence : cell_fence (reg.read s) ≡ fence = rw new (unfold new_record in refl) in
      let new_owner : cell_owner (reg.read s) ≡ some o =
        rw new (unfold new_record in ap some (v.named o)) in
      record {
        named = λ p. ground (arith, v.named p, v.named o, str_eq_iff o p);
        below = λ p. ground (arith, v.below p, ap cell_fence there, new_fence);
        unique = λ p pos same. elim (Bool-cases (str_eq o p)) [
          | inl mine ↦ new_owner ∙ ap some ((str_eq_iff o p).0 mine)
          | inr other ↦ ground (
            arith,
            other,
            new_fence,
            v.below p,
            v.unique p,
            ap cell_fence there,
            ap cell_owner there,
            str_eq_iff o p,
          )
        ];
        apart = λ p q other pos e. ground (
          arith,
          v.apart p q other,
          v.below p,
          v.below q,
          v.unique p,
          v.unique q,
          ap cell_fence there,
          ap cell_owner there,
          str_eq_iff o p,
          str_eq_iff o q,
        );
      }

  -- A write that keeps the record's fence and owner.
  same_cell-IsFenced :
      {f : Fleet reg} (s : reg.Store)
      → IsFenced reg f
      → cell_fence (reg.read s) ≡ fence_now reg f
      → cell_owner (reg.read s) ≡ cell_owner (reg.read f.store)
      → IsFenced reg (record f { store = s })
  same_cell-IsFenced s v e w = record {
    named = v.named;
    below = λ p. omega (arith, e, v.below p);
    unique = λ p pos same. w ∙ v.unique p pos (same ∙ e);
    apart = v.apart;
  }

  keep-IsFenced :
      {f : Fleet reg} (r : LeaseRecord) (new : LeaseRecord)
      → IsFenced reg f
      → fence_of new ≡ fence_of r
      → new.owner_id ≡ r.owner_id
      → IsFenced reg (record f { store = (reg.swap (some (object r)) (object new) f.store).0 })
  keep-IsFenced {f} r new v e w = elim (swap-cases reg (some (object r)) (object new) f.store) [
    | inl (there, written, _) ↦
        same_cell-IsFenced _ v (rw (written, there) e) (rw (written, there) w)
    | inr (same, _) ↦ rw same v
  ]

  attempt-IsFenced :
      {f : Fleet reg} (o : String) (now : ℕ) (fault : Option String) (seen : reg.Store) (p : Plan)
      → IsFenced reg f
      → PlanAdvances o (reg.read seen) p
      → IsFenced reg (after reg f o (carry_out reg fault (λ _. f.store) now (f.lease o) seen p))
  unfolding carry_out after lose
  attempt-IsFenced o now fault seen (failed e) v adv = drop-IsFenced o _ v refl refl
  attempt-IsFenced o now fault seen stand_by v adv = drop-IsFenced o _ v refl refl
  attempt-IsFenced o now (some exc) seen (take fence state) v adv = drop-IsFenced o _ v refl refl
  attempt-IsFenced {f} o now none seen (take fence state) v adv =
      elim (swap-cases reg (reg.read seen) (claim (f.lease o) now fence state) f.store) [
        | inl (there, written, won) ↦
            rw (won, commit)
              (claim-IsFenced o now fence state (reg.read seen) _ v there written adv)
        | inr (same, lost) ↦ rw (lost, commit) (rw same v)
      ]

  release-IsFenced :
      {f : Fleet reg} (o : String) (r : LeaseRecord)
      → IsFenced reg f
      → owned_by (f.lease o).owner_id r ≡ true
      → fence_is (f.lease o).fence r ≡ true
      → IsFenced reg (record {
        store =
            (reg.swap
              (some (object r))
              (object (new_record "" 0 (f.lease o).ttl_ms (fence_of r) r.state))
              f.store).0;
        lease = update o (lose (f.lease o)) f.lease;
      })
  release-IsFenced {f} o r v mine at =
      elim (swap-cases reg (some (object r))
        (object (new_record "" 0 (f.lease o).ttl_ms (fence_of r) r.state)) f.store) [
          | inl (there, written, _) ↦
              let new = new_record "" 0 (f.lease o).ttl_ms (fence_of r) r.state in
              let same_fence : cell_fence
                    (reg.read (reg.swap (some (object r)) (object new) f.store).0)
                  ≡ fence_now reg f =
                rw (written, there) (unfold new_record in refl) in
              let owner : cell_owner (reg.read f.store) ≡ some o =
                rw there (owned_by-owner (f.lease o).owner_id r mine ∙ ap some (v.named o)) in
              record {
                named = λ p. unfold lose in ground (arith, v.named p, v.named o, str_eq_iff o p);
                below = λ p. unfold lose in ground (arith, v.below p, same_fence);
                unique = λ p pos now.
                    unfold lose in ground (arith, same_fence, owner, v.unique p, str_eq_iff o p);
                apart = λ p q other pos e. unfold lose in ground (arith, v.apart p q other);
              }
          | inr (same, _) ↦
              rw same (drop-IsFenced o _ v (unfold lose in refl) (unfold lose in refl))
        ]

  Step-IsFenced : {f g : Fleet reg} → Step reg f g → IsFenced reg f → IsFenced reg g
  unfolding with_state lose
  Step-IsFenced {f} (acquire o now read_fault swap_fault seen) v =
      attempt-IsFenced o now swap_fault seen (decide read_fault (f.lease o) now (reg.read seen)) v (
        subst
          (λ owner.
            PlanAdvances owner (reg.read seen) (decide read_fault (f.lease o) now (reg.read seen)))
          (v.named o) (decide-Advances read_fault (f.lease o) now (reg.read seen)))
  Step-IsFenced (mutate o name value now r h) v = keep-IsFenced r _ v refl refl
  Step-IsFenced (release o r mine at) v = release-IsFenced o r v mine at
  Step-IsFenced (lapse o) v = drop-IsFenced o _ v refl refl

  Reach-IsFenced : {f g : Fleet reg} → IsFenced reg f → Reach reg f g → IsFenced reg g
  Reach-IsFenced v start = v
  Reach-IsFenced v (next r st) = Step-IsFenced st (Reach-IsFenced v r)

  -- Managers that have just started, each under its own name.
  pub record IsStart (f : Fleet reg) : Type 0 where
    pub named : (o : String) → (f.lease o).owner_id ≡ o
    pub unled : (o : String) → (f.lease o).fence ≡ 0

  IsStart-IsFenced : {f : Fleet reg} → IsStart f → IsFenced reg f
  IsStart-IsFenced v = record {
    named = v.named;
    below = λ o. omega (arith, v.unled o);
    unique = λ o pos now. absurd (omega (arith, v.unled o));
    apart = λ o p other pos. absurd (omega (arith, v.unled o));
  }

  -- In every state that Managers reach from their start, by any interleaving of reads and swaps,
  -- no two of them hold the same fence, and no fence is ahead of the durable one.
  pub terms_exclusive :
      {f g : Fleet reg} (o p : String)
      → IsStart f
      → Reach reg f g
      → o ≢ p
      → 0 < (g.lease o).fence
      → ((g.lease o).fence ≢ (g.lease p).fence) × ((g.lease o).fence ≤ fence_now reg g)
  terms_exclusive {f} {g} o p begin r other pos =
      let v = Reach-IsFenced (IsStart-IsFenced begin) r in (v.apart o p other pos, v.below o)

  swap-fence-le :
      (seen : Option Raw) (new : Raw) (s : reg.Store)
      → cell_fence seen ≤ cell_fence (some new)
      → cell_fence (reg.read s) ≤ cell_fence (reg.read (reg.swap seen new s).0)
  swap-fence-le seen new s h = elim (swap-cases reg seen new s) [
    | inl (there, written, _) ↦ rw (there, written) h
    | inr (same, _) ↦ rw same (omega arith)
  ]

  attempt-fence-le :
      (f : Fleet reg) (o : String) (now : ℕ) (fault : Option String) (seen : reg.Store) (p : Plan)
      → PlanAdvances (f.lease o).owner_id (reg.read seen) p
      → fence_now reg f
        ≤ fence_now reg (after reg f o (carry_out reg fault (λ _. f.store) now (f.lease o) seen p))
  unfolding carry_out after commit new_record
  attempt-fence-le f o now fault seen (failed e) adv = omega arith
  attempt-fence-le f o now fault seen stand_by adv = omega arith
  attempt-fence-le f o now (some exc) seen (take fence state) adv = omega arith
  attempt-fence-le f o now none seen (take fence state) adv =
      let low =
        swap-fence-le (reg.read seen) (claim (f.lease o) now fence state) f.store
          (unfold new_record in grind arith) in
      elim (Bool-cases (reg.swap (reg.read seen) (claim (f.lease o) now fence state) f.store).1) [
        | inl won ↦ rw won low
        | inr lost ↦ rw lost low
      ]

  Step-fence-le : {f g : Fleet reg} → Step reg f g → fence_now reg f ≤ fence_now reg g
  unfolding with_state new_record
  Step-fence-le {f} (acquire o now read_fault swap_fault seen) =
      attempt-fence-le f o now swap_fault seen (decide read_fault (f.lease o) now (reg.read seen))
        (decide-Advances read_fault (f.lease o) now (reg.read seen))
  Step-fence-le {f} (mutate o name value now r h) = swap-fence-le _ _ f.store (omega arith)
  Step-fence-le {f} (release o r mine at) = swap-fence-le _ _ f.store (omega arith)
  Step-fence-le (lapse o) = omega arith

  -- No step of any Manager lowers the durable fence.
  pub fence_grows : {f g : Fleet reg} → Reach reg f g → fence_now reg f ≤ fence_now reg g
  fence_grows start = omega arith
  fence_grows (next r st) = omega (arith, fence_grows r, Step-fence-le st)
