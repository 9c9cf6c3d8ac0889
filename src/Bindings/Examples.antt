-- ===== src/Bindings/Examples.antt =====
-- Calls of a concrete registry.
use sub2_ddq.Prelude.{◌≡◌, refl, none, some, List, [], ◌∷◌, codes}
use sub2_ddq.Bindings.{
  AccountBinding, BindingOutcome, BindingReply, bind, empty_registry, load_bindings, add_loaded,
}
use sub2_ddq.Bindings.Bijection.{IsConsistent, RegistryCall, registry-IsConsistent, run_calls}

abbrev stored : List AccountBinding
stored =
    record {
      actor_key = 1;
      user_id = 10;
      email_masked = codes "a***@b.c";
      bound_at = codes "2026-01-01";
    }
    ∷ []

account_taken :
    (bind 2 10
      (some (codes "a***@b.c"))
      (codes "2026-01-02")
      (load_bindings stored empty_registry).0).1
    ≡ BindingReply.replied BindingOutcome.account_conflict
unfolding bind load_bindings add_loaded
account_taken = refl

registry-IsConsistent_example : IsConsistent (
    run_calls
      (RegistryCall.to_bind 2 10 none (codes "t")
        ∷ RegistryCall.to_unbind 1
        ∷ RegistryCall.to_bind 2 10 (some (codes "a***@b.c")) (codes "t")
        ∷ [])
      (load_bindings stored empty_registry).0)
registry-IsConsistent_example = registry-IsConsistent stored (
    RegistryCall.to_bind 2 10 none (codes "t")
    ∷ RegistryCall.to_unbind 1
    ∷ RegistryCall.to_bind 2 10 (some (codes "a***@b.c")) (codes "t")
    ∷ [])
