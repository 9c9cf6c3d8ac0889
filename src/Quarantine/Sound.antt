-- ===== src/Quarantine/Sound.antt =====
-- The invariant of the quarantine registry, and what a write to its tables must show to keep it.
use sub2_ddq.Prelude.{
  ℕ, ◌+◌, ◌≤◌, true, Option, none, some, get, put, remove, is_some, ◌==◌, if◌then◌else◌, length,
  ◌≡◌, refl, sym, subst, inl, inr, arith, Dict, HasUniqueKeys, HasUniqueKeys-put,
  HasUniqueKeys-remove, get-put_if, get-remove_if, length-put_lem, length-remove_lem, Bool-cases,
  ==_iff, ap,
}
use sub2_ddq.Quarantine.Records.{
  AccountQuarantineRecord, AccountQuarantineIntent, is_valid_record, is_valid_intent,
}
use sub2_ddq.Quarantine.{Registry, Reply, registry_count, max_account_quarantines}
use sub2_ddq.Quarantine.Stages.{Stage, stage_of, stage_in, weight}

-- What the three tables may hold for one account: nothing, a pending intent, or a quarantine with
-- or without a restore intent, each readable and under its own key.
unfoldable pub IsFit :
    ℕ → Option AccountQuarantineRecord → Option AccountQuarantineIntent → Option ℕ → Type 0
IsFit id none none none = Unit
IsFit id none none (some t) = ⊥
IsFit id none (some i) none = (is_valid_intent i ≡ true) × (i.account_id ≡ id)
IsFit id none (some i) (some t) = ⊥
IsFit id (some r) (some i) t = ⊥
IsFit id (some r) none t = (is_valid_record r ≡ true) × (r.account_id ≡ id)

pub record IsSound (g : Registry) : Type 0 where
  pub unique_quarantines : HasUniqueKeys g.quarantines
  pub unique_intents : HasUniqueKeys g.intents
  pub unique_restores : HasUniqueKeys g.restores
  pub fits : (id : ℕ) → IsFit id (get id g.quarantines) (get id g.intents) (get id g.restores)
  pub bounded : registry_count g ≤ max_account_quarantines

-- A call that ends in a registry and a reply does to the account what the stage and the reply say,
-- and nothing to another.
pub record Simulates (g : Registry) (id : ℕ) (result : Registry × Reply) (target : Stage × Reply)
    : Type 0 where
  pub sound : IsSound result.0
  pub stages : (j : ℕ) → stage_in result.0 j ≡ (if j == id then target.0 else stage_in g j)
  pub counted :
      registry_count result.0 + weight (stage_in g id) ≡ registry_count g + weight target.0
  pub answered : result.1 ≡ target.1

abbrev one {ℓ} : {A : Type ℓ} → Option A → ℕ
one o = if is_some o then 1 else 0

module _ {ℓ} {A : Type ℓ} where
  -- A table of which one key was written.
  pub record Written (id : ℕ) (d d' : Dict A) (new : Option A) : Type ℓ where
    pub lookups : (j : ℕ) → get j d' ≡ (if j == id then new else get j d)
    pub unique : HasUniqueKeys d'
    pub sized : length d' + one (get id d) ≡ length d + one new

  same_key : (id j : ℕ) (d : Dict A) → get j d ≡ (if j == id then get id d else get j d)
  same_key id j d = elim (Bool-cases (j == id)) [
    | inl e ↦ rw e (ap (λ (k : ℕ). get k d) ((==_iff j id).0 e))
    | inr e ↦ rw e refl
  ]

  pub Written-kept :
      (id : ℕ) (d : Dict A) (o : Option A) → HasUniqueKeys d → get id d ≡ o → Written id d d o
  Written-kept id d o u e =
      subst (Written id d d) e (record { lookups = λ j. same_key id j d; unique = u; sized = refl })

  pub Written-put :
      (id : ℕ) (v : A) (d : Dict A) → HasUniqueKeys d → Written id d (put id v d) (some v)
  Written-put id v d u = record {
    lookups = λ j. get-put_if j id v d;
    unique = HasUniqueKeys-put id v d u;
    sized = ground (arith, length-put_lem id v d);
  }

  pub Written-remove : (id : ℕ) (d : Dict A) → HasUniqueKeys d → Written id d (remove id d) none
  Written-remove id d u = record {
    lookups = λ j. get-remove_if j id d;
    unique = HasUniqueKeys-remove id d u;
    sized = ground (arith, length-remove_lem id d u);
  }

weight-stage_of :
    (id : ℕ) (q : Option AccountQuarantineRecord) (i : Option AccountQuarantineIntent)
    (t : Option ℕ)
    → IsFit id q i t
    → weight (stage_of q i t) ≡ one q + one i
unfolding IsFit
weight-stage_of id none none none h = refl
weight-stage_of id none none (some t) h = elim h [ ]
weight-stage_of id none (some i) none h = refl
weight-stage_of id none (some i) (some t) h = elim h [ ]
weight-stage_of id (some r) (some i) t h = elim h [ ]
weight-stage_of id (some r) none none h = refl
weight-stage_of id (some r) none (some t) h = refl

module _ (g g' : Registry) (id : ℕ) {q : Option AccountQuarantineRecord}
    {i : Option AccountQuarantineIntent} {t : Option ℕ}
    (wq : Written id g.quarantines g'.quarantines q) (wi : Written id g.intents g'.intents i)
    (wt : Written id g.restores g'.restores t) (fit : IsFit id q i t) (s : IsSound g) where
  fits_after : (j : ℕ) → IsFit j (get j g'.quarantines) (get j g'.intents) (get j g'.restores)
  fits_after j = elim (Bool-cases (j == id)) [
    | inl e ↦
        let at = subst (λ k. IsFit k q i t) (sym ((==_iff j id).0 e)) fit in
        rw (wq.lookups j, wi.lookups j, wt.lookups j, e) at
    | inr e ↦ rw (wq.lookups j, wi.lookups j, wt.lookups j, e) (s.fits j)
  ]

  stages_after : (j : ℕ) → stage_in g' j ≡ (if j == id then stage_of q i t else stage_in g j)
  unfolding stage_in
  stages_after j = elim (Bool-cases (j == id)) [
    | inl e ↦ rw (wq.lookups j, wi.lookups j, wt.lookups j, e) refl
    | inr e ↦ rw (wq.lookups j, wi.lookups j, wt.lookups j, e) refl
  ]

  count_after :
      registry_count g' + weight (stage_in g id) ≡ registry_count g + weight (stage_of q i t)
  unfolding registry_count stage_in
  count_after = omega (
    arith,
    weight-stage_of id q i t fit,
    weight-stage_of id (get id g.quarantines) (get id g.intents) (get id g.restores) (s.fits id),
    wq.sized,
    wi.sized,
  )

  pub written :
      (reply : Reply)
      → registry_count g' ≤ max_account_quarantines
      → Simulates g id (g', reply) (stage_of q i t, reply)
  written reply b = record {
    sound = record {
      unique_quarantines = wq.unique;
      unique_intents = wi.unique;
      unique_restores = wt.unique;
      fits = fits_after;
      bounded = b;
    };
    stages = stages_after;
    counted = count_after;
    answered = refl;
  }

  -- A write that leaves no more than one account more than there was room for.
  pub written_smaller :
      (reply : Reply)
      → weight (stage_of q i t) ≤ weight (stage_in g id)
      → Simulates g id (g', reply) (stage_of q i t, reply)
  written_smaller reply h = written reply (omega (arith, count_after, s.bounded))

  pub written_below :
      (reply : Reply)
      → registry_count g + 1 ≤ max_account_quarantines
      → Simulates g id (g', reply) (stage_of q i t, reply)
  written_below reply h = written reply (ground (arith, count_after, weight-stage_of id q i t fit))

-- A call that changes nothing.
pub unchanged :
    (g : Registry) (id : ℕ) (stage : Stage) (reply : Reply)
    → IsSound g
    → stage_in g id ≡ stage
    → Simulates g id (g, reply) (stage, reply)
unchanged g id stage reply s e =
    subst (λ x. Simulates g id (g, reply) (x, reply)) e
      (record {
        sound = s;
        stages = λ j. elim (Bool-cases (j == id)) [
          | inl h ↦ rw h (ap (stage_in g) ((==_iff j id).0 h))
          | inr h ↦ rw h refl
        ];
        counted = refl;
        answered = refl;
      })
