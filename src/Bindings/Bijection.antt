-- ===== src/Bindings/Bijection.antt =====
-- The two dictionaries of the registry are inverse to each other.
use sub2_ddq.Prelude.{
  ℕ, ◌≤◌, ◌≡◌, false, Option, none, some, List, [], ◌∷◌, Text, get, put, remove, get-put,
  get-put_other, get-remove_other, get-put_cases, get-remove-some, get_apart, length-remove,
  length-put, length, leb, ◌==◌, Bool-cases, Option-cases, inl, inr, subst, sym, ◌∙◌, ap, arith,
}
use sub2_ddq.Bindings.{
  AccountBinding, BindingRegistry, add_binding, add_loaded, bind, bind_new, load_bindings, unbind,
  max_bindings, empty_registry,
}
use mathlib.Core.Option.{some_inj}

-- An actor's binding names the actor, and its account leads back to the actor; an account's actor
-- has a binding to that account; and there are no more bindings than the limit.
pub record IsConsistent (r : BindingRegistry) : Type 0 where
  pub forth :
      (k : ℕ) (b : AccountBinding)
      → get k r.by_actor ≡ some b
      → (b.actor_key ≡ k) × (get b.user_id r.actor_by_account ≡ some k)
  pub back :
      (u k : ℕ)
      → get u r.actor_by_account ≡ some k
      → (b : AccountBinding) × (get k r.by_actor ≡ some b) × (b.user_id ≡ u)
  pub bounded : length r.by_actor ≤ max_bindings

differ : (j k : ℕ) → (j == k) ≡ false → j ≡ k → ⊥
differ j k h e = ground (arith, h, e)

add_binding-IsConsistent :
    (b : AccountBinding) (r : BindingRegistry)
    → get b.actor_key r.by_actor ≡ none
    → get b.user_id r.actor_by_account ≡ none
    → leb max_bindings (length r.by_actor) ≡ false
    → IsConsistent r
    → IsConsistent (add_binding b r)
add_binding-IsConsistent b r f g l c = record {
  forth = λ k x h. elim (get-put_cases k b.actor_key b x r.by_actor h) [
    | inl (same, is_b) ↦
        subst
          (λ y.
            (y.actor_key ≡ k)
            × (get y.user_id (put b.user_id b.actor_key r.actor_by_account) ≡ some k))
          (sym is_b)
          (sym same, get-put b.user_id b.actor_key r.actor_by_account ∙ ap some (sym same))
    | inr (apart, old) ↦
        let (key, there) = c.forth k x old in
        let other =
          get_apart x.user_id b.user_id (some k) none r.actor_by_account there g (λ e. cc) in
        (key, get-put_other x.user_id b.user_id b.actor_key r.actor_by_account other ∙ there)
  ];
  back = λ u k h. elim (get-put_cases u b.user_id b.actor_key k r.actor_by_account h) [
    | inl (same, key) ↦ (
      b,
      subst (λ j. get j (put b.actor_key b r.by_actor) ≡ some b) (sym key)
          (get-put b.actor_key b r.by_actor),
      sym same,
    )
    | inr (apart, old) ↦
        let (x, there, user) = c.back u k old in
        let other = get_apart k b.actor_key (some x) none r.by_actor there f (λ e. cc) in
        (x, get-put_other k b.actor_key b r.by_actor other ∙ there, user)
  ];
  bounded = ground (arith, length-put b.actor_key b r.by_actor, l);
}

remove-IsConsistent :
    (k : ℕ) (b : AccountBinding) (r : BindingRegistry)
    → get k r.by_actor ≡ some b
    → IsConsistent r
    → IsConsistent (record {
      by_actor = remove k r.by_actor;
      actor_by_account = remove b.user_id r.actor_by_account;
    })
remove-IsConsistent k b r f c = record {
  forth = λ j x h.
      let (apart, old) = get-remove-some j k x r.by_actor h in
      let (key, there) = c.forth j x old in
      let other =
        get_apart x.user_id b.user_id (some j) (some k) r.actor_by_account there (c.forth k b f).1
          (λ e. differ j k apart (some_inj.0 e)) in
      (key, get-remove_other x.user_id b.user_id r.actor_by_account other ∙ there);
  back = λ u j h.
      let (apart, old) = get-remove-some u b.user_id j r.actor_by_account h in
      let (x, there, user) = c.back u j old in
      let other =
        get_apart j k (some x) (some b) r.by_actor there f
          (λ e. differ u b.user_id apart (sym user ∙ ap (λ y. y.user_id) (some_inj.0 e))) in
      (x, get-remove_other j k r.by_actor other ∙ there, user);
  bounded = omega (arith, length-remove k r.by_actor, c.bounded);
}

empty_registry-IsConsistent : IsConsistent empty_registry
empty_registry-IsConsistent = record {
  forth = λ k b h. cc;
  back = λ u k h. cc;
  bounded = omega arith;
}

bind_new-IsConsistent :
    (actor user : ℕ) (masked : Option Text) (bound_at : Text) (r : BindingRegistry)
    → get actor r.by_actor ≡ none
    → IsConsistent r
    → IsConsistent (bind_new actor user masked bound_at r).0
bind_new-IsConsistent actor user masked bound_at r f c =
    elim (Option-cases (get user r.actor_by_account)) [
      | inr (k, e) ↦ rw e c
      | inl e ↦ elim (Bool-cases (leb max_bindings (length r.by_actor))) [
        | inl full ↦ rw (e, full) c
        | inr room ↦ elim (Option-cases masked) [
          | inl refused ↦ rw (e, room, refused) c
          | inr (email, given) ↦
              let b : AccountBinding = record {
                actor_key = actor;
                user_id = user;
                email_masked = email;
                bound_at = bound_at;
              } in
              rw (e, room, given) (add_binding-IsConsistent b r f e room c)
        ]
      ]
    ]

-- Binding keeps the registry consistent, whatever the outcome is.
bind-IsConsistent :
    (actor user : ℕ) (masked : Option Text) (bound_at : Text) (r : BindingRegistry)
    → IsConsistent r
    → IsConsistent (bind actor user masked bound_at r).0
unfolding bind
bind-IsConsistent actor user masked bound_at r c = elim (Option-cases (get actor r.by_actor)) [
  | inl e ↦ rw (bind, e) (bind_new-IsConsistent actor user masked bound_at r e c)
  | inr (b, e) ↦ elim (Bool-cases (b.user_id == user)) [
    | inl same ↦ rw (bind, e, same) c
    | inr other ↦ rw (bind, e, other) c
  ]
]

-- Unbinding keeps the registry consistent.
unbind-IsConsistent :
    (actor : ℕ) (r : BindingRegistry) → IsConsistent r → IsConsistent (unbind actor r).0
unfolding unbind
unbind-IsConsistent actor r c = elim (Option-cases (get actor r.by_actor)) [
  | inl e ↦ rw (unbind, e) c
  | inr (b, e) ↦ rw (unbind, e) (remove-IsConsistent actor b r e c)
]

add_loaded-IsConsistent :
    (b : AccountBinding) (r : BindingRegistry) → IsConsistent r → IsConsistent (add_loaded b r).0
unfolding add_loaded
add_loaded-IsConsistent b r c = elim (Option-cases (get b.actor_key r.by_actor)) [
  | inr (x, e) ↦ rw (add_loaded, e) c
  | inl e ↦ elim (Option-cases (get b.user_id r.actor_by_account)) [
    | inr (x, f) ↦ rw (add_loaded, e, f) c
    | inl f ↦ elim (Bool-cases (leb max_bindings (length r.by_actor))) [
      | inl full ↦ rw (add_loaded, e, f, full) c
      | inr room ↦ rw (add_loaded, e, f, room) (add_binding-IsConsistent b r e f room c)
    ]
  ]
]

load_bindings-IsConsistent :
    (bs : List AccountBinding) (r : BindingRegistry)
    → IsConsistent r
    → IsConsistent (load_bindings bs r).0
unfolding load_bindings
load_bindings-IsConsistent [] r c = c
load_bindings-IsConsistent (b ∷ bs) r c =
    let next = add_loaded-IsConsistent b r c in
    elim (Option-cases (add_loaded b r).1) [
      | inl e ↦ rw (load_bindings, e) (load_bindings-IsConsistent bs (add_loaded b r).0 next)
      | inr (x, e) ↦ rw (load_bindings, e) next
    ]

-- A call of the registry.
pub data RegistryCall : Type 0 where
  to_bind : (actor user : ℕ) (masked : Option Text) (bound_at : Text) → RegistryCall
  to_unbind : (actor : ℕ) → RegistryCall

unfoldable pub run_calls : List RegistryCall → BindingRegistry → BindingRegistry
run_calls [] r = r
run_calls (RegistryCall.to_bind actor user masked bound_at ∷ calls) r =
    run_calls calls (bind actor user masked bound_at r).0
run_calls (RegistryCall.to_unbind actor ∷ calls) r = run_calls calls (unbind actor r).0

run_calls-IsConsistent :
    (calls : List RegistryCall) (r : BindingRegistry)
    → IsConsistent r
    → IsConsistent (run_calls calls r)
unfolding run_calls
run_calls-IsConsistent [] r c = c
run_calls-IsConsistent (RegistryCall.to_bind actor user masked bound_at ∷ calls) r c =
    run_calls-IsConsistent calls (bind actor user masked bound_at r).0
      (bind-IsConsistent actor user masked bound_at r c)
run_calls-IsConsistent (RegistryCall.to_unbind actor ∷ calls) r c =
    run_calls-IsConsistent calls (unbind actor r).0 (unbind-IsConsistent actor r c)

-- After loading any stored bindings and any calls of bind and unbind, successful or not, actors and
-- accounts are bound one to one in both dictionaries, and there are no more bindings than the limit.
pub registry-IsConsistent :
    (stored : List AccountBinding) (calls : List RegistryCall)
    → IsConsistent (run_calls calls (load_bindings stored empty_registry).0)
registry-IsConsistent stored calls =
    run_calls-IsConsistent calls (load_bindings stored empty_registry).0
      (load_bindings-IsConsistent stored empty_registry empty_registry-IsConsistent)
