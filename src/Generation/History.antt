-- ===== src/Generation/History.antt =====
-- The order of the records of generations, and the tests of contexts in plain terms.
use fabric_shortcut_proxy.Prelude.{
  ◌≤◌, ◌<◌, str_eq_iff, Bool, true, false, ◌≡◌, ◌≢◌, ◌⊎◌, refl, sym, ◌∙◌, subst, if◌then◌else◌,
  arith, inl, inr,
}
use fabric_shortcut_proxy.Generation.{
  PlanState, preparing, ready, failed, active, state_is, GenerationContext, GenerationError,
  Outcome, returned, raised, then_do, same_context,
}
use fabric_shortcut_proxy.Generation.Calls.{same_generation}

-- The fields that tell one generation from another.
pub record SameIds (c d : GenerationContext) : Type 0 where
  pub fences : d.fence ≡ c.fence
  pub ids : d.generation_id ≡ c.generation_id
  pub tokens : d.lease_token ≡ c.lease_token
  pub shards : d.shard_count ≡ c.shard_count
  pub versions : d.version ≡ c.version

pub SameIds-trans : (a b c : GenerationContext) → SameIds a b → SameIds b c → SameIds a c
SameIds-trans a b c p q = record {
  fences = q.fences ∙ p.fences;
  ids = q.ids ∙ p.ids;
  tokens = q.tokens ∙ p.tokens;
  shards = q.shards ∙ p.shards;
  versions = q.versions ∙ p.versions;
}

-- The plan of a generation stays once it has one.
abbrev pub PlanKept : GenerationContext → GenerationContext → Type 0
PlanKept c d =
    c.plan_state ≢ preparing → (d.plan_state ≡ c.plan_state) × (d.plan_sha256 ≡ c.plan_sha256)

-- The second context is of a newer generation, or of the same one with no other plan.
abbrev pub Later : GenerationContext → GenerationContext → Type 0
Later c d = (c.fence < d.fence) ⊎ SameIds c d × PlanKept c d

PlanKept-trans : (a b c : GenerationContext) → PlanKept a b → PlanKept b c → PlanKept a c
PlanKept-trans a b c p q settled =
    let kept = p settled in
    let later = q (λ e. settled (sym kept.0 ∙ e)) in (later.0 ∙ kept.0, later.1 ∙ kept.1)

pub Later-trans : (a b c : GenerationContext) → Later a b → Later b c → Later a c
Later-trans a b c (inl p) (inl q) = inl (omega arith)
Later-trans a b c (inl p) (inr (q, _)) = inl (rw q.fences p)
Later-trans a b c (inr (p, _)) (inl q) = inl (subst (λ n. n < c.fence) p.fences q)
Later-trans a b c (inr (p, k)) (inr (q, l)) =
    inr (SameIds-trans a b c p q, PlanKept-trans a b c k l)

pub Later-refl : (a : GenerationContext) → Later a a
Later-refl a = inr (
  record { fences = refl; ids = refl; tokens = refl; shards = refl; versions = refl },
  λ h. (refl, refl),
)

pub Later-fence : (c d : GenerationContext) → Later c d → c.fence ≤ d.fence
Later-fence c d (inl p) = omega arith
Later-fence c d (inr (p, k)) = rw p.fences (omega arith)

pub returned_inj : {A : Type 0} {a b : A} → returned a ≡ returned b → a ≡ b
returned_inj h = cc

pub then_do-returned :
    {A B : Type 0} (o : Outcome A) (f : A → Outcome B) (b : B)
    → then_do o f ≡ returned b
    → (a : A) × (o ≡ returned a) × (f a ≡ returned b)
then_do-returned (returned a) f b h = (a, refl, h)
then_do-returned (raised e) f b h = absurd cc

pub if-returned :
    {A : Type 0} (t : Bool) (e : GenerationError) (a b : A)
    → (if t then returned a else raised e) ≡ returned b
    → (t ≡ true) × (a ≡ b)
if-returned true e a b h = (refl, returned_inj h)
if-returned false e a b h = absurd cc

pub unless-returned :
    (t : Bool) (e : GenerationError) (o : Outcome Unit) (b : Unit)
    → (if t then raised e else o) ≡ returned b
    → (t ≡ false) × (o ≡ returned b)
unless-returned true e o b h = absurd cc
unless-returned false e o b h = (refl, h)

pub state_is→path : (s t : PlanState) → state_is s t ≡ true → s ≡ t
state_is→path preparing preparing h = refl
state_is→path ready ready h = refl
state_is→path failed failed h = refl
state_is→path active active h = refl
state_is→path preparing ready h = absurd cc
state_is→path preparing failed h = absurd cc
state_is→path preparing active h = absurd cc
state_is→path ready preparing h = absurd cc
state_is→path ready failed h = absurd cc
state_is→path ready active h = absurd cc
state_is→path failed preparing h = absurd cc
state_is→path failed ready h = absurd cc
state_is→path failed active h = absurd cc
state_is→path active preparing h = absurd cc
state_is→path active ready h = absurd cc
state_is→path active failed h = absurd cc

-- The tests on contexts.
pub same_context-SameIds :
    (a b : GenerationContext)
    → same_context a b ≡ true
    → SameIds b a × (a.plan_state ≡ b.plan_state)
unfolding same_context
same_context-SameIds a b h = (
  record {
    fences = ground (arith, h);
    ids = ground (arith, h, str_eq_iff a.generation_id b.generation_id);
    tokens = ground (arith, h, str_eq_iff a.lease_token b.lease_token);
    shards = ground (arith, h);
    versions = ground (arith, h);
  },
  state_is→path a.plan_state b.plan_state (ground (arith, h)),
)

pub same_generation-SameIds :
    (a b : GenerationContext)
    → same_generation a b ≡ true
    → SameIds b a × (a.plan_state ≡ b.plan_state) × (a.plan_sha256 ≡ b.plan_sha256)
unfolding same_generation
same_generation-SameIds a b h = (
  record {
    fences = ground (arith, h);
    ids = ground (arith, h, str_eq_iff a.generation_id b.generation_id);
    tokens = ground (arith, h, str_eq_iff a.lease_token b.lease_token);
    shards = ground (arith, h);
    versions = ground (arith, h);
  },
  state_is→path a.plan_state b.plan_state (ground (arith, h)),
  ground (arith, h, str_eq_iff a.plan_sha256 b.plan_sha256),
)

pub SameIds-sym : (a b : GenerationContext) → SameIds a b → SameIds b a
SameIds-sym a b p = record {
  fences = sym p.fences;
  ids = sym p.ids;
  tokens = sym p.tokens;
  shards = sym p.shards;
  versions = sym p.versions;
}
