-- ===== src/Bindings.antt =====
-- `BindingRegistry` of core/bindings.py: which chat actor is bound to which account. An actor key
-- is the 256-bit number that its hexadecimal digits spell, and a user ID the number that its digits
-- spell behind a leading 1, so that two spellings are two keys. Both are validated by the caller; the
-- masked e-mail address is `none` where it is refused.
pub mod Bijection
pub mod Limiter
mod Examples
use sub2_ddq.Prelude.{
  ℕ, Bool, true, false, Option, none, some, List, [], ◌∷◌, Text, Dict, get, put, remove, is_some,
  leb, length, ◌==◌, if◌then◌else◌,
}

pub record AccountBinding : Type 0 where
  pub actor_key : ℕ
  pub user_id : ℕ
  pub email_masked : Text
  pub bound_at : Text

pub data BindingOutcome : Type 0 where
  created already_bound actor_conflict account_conflict : BindingOutcome

-- `_by_actor` and `_actor_by_account`
pub record BindingRegistry : Type 0 where
  pub by_actor : Dict AccountBinding
  pub actor_by_account : Dict ℕ

-- What is raised.
pub data BindingError : Type 0 where
  duplicate_actor duplicate_account too_many invalid_email : BindingError

pub data BindingReply : Type 0 where
  replied : BindingOutcome → BindingReply
  raised : BindingError → BindingReply

abbrev pub max_bindings : ℕ
max_bindings = 10000

abbrev pub empty_registry : BindingRegistry
empty_registry = record { by_actor = []; actor_by_account = [] }

-- The two writes that `bind` and `_add_loaded` end with.
abbrev pub add_binding : AccountBinding → BindingRegistry → BindingRegistry
add_binding b r = record {
  by_actor = put b.actor_key b r.by_actor;
  actor_by_account = put b.user_id b.actor_key r.actor_by_account;
}

-- `_add_loaded`; `none` is success.
unfoldable pub add_loaded : AccountBinding → BindingRegistry → BindingRegistry × Option BindingError
add_loaded b r =
    if is_some (get b.actor_key r.by_actor)
    then (r, some BindingError.duplicate_actor)
    else if is_some (get b.user_id r.actor_by_account)
    then (r, some BindingError.duplicate_account)
    else if leb max_bindings (length r.by_actor)
    then (r, some BindingError.too_many)
    else (add_binding b r, none)

-- The loop of `__init__`, which ends at the first error.
unfoldable pub load_bindings :
    List AccountBinding → BindingRegistry → BindingRegistry × Option BindingError
load_bindings [] r = (r, none)
load_bindings (b ∷ bs) r =
    let (next, error) = add_loaded b r in
    elim error [ none ↦ load_bindings bs next | some e ↦ (next, some e) ]

-- `bind` behind the lookup of the actor.
abbrev pub bind_new : ℕ → ℕ → Option Text → Text → BindingRegistry → BindingRegistry × BindingReply
bind_new actor user masked bound_at r =
    if is_some (get user r.actor_by_account)
    then (r, BindingReply.replied BindingOutcome.account_conflict)
    else if leb max_bindings (length r.by_actor)
    then (r, BindingReply.raised BindingError.too_many)
    else elim masked [
      | none ↦ (r, BindingReply.raised BindingError.invalid_email)
      | some email ↦
          let b : AccountBinding = record {
            actor_key = actor;
            user_id = user;
            email_masked = email;
            bound_at = bound_at;
          } in
          (add_binding b r, BindingReply.replied BindingOutcome.created)
    ]

unfoldable pub bind : ℕ → ℕ → Option Text → Text → BindingRegistry → BindingRegistry × BindingReply
bind actor user masked bound_at r = elim (get actor r.by_actor) [
  | some b ↦
      if b.user_id == user
      then (r, BindingReply.replied BindingOutcome.already_bound)
      else (r, BindingReply.replied BindingOutcome.actor_conflict)
  | none ↦ bind_new actor user masked bound_at r
]

unfoldable pub unbind : ℕ → BindingRegistry → BindingRegistry × Bool
unbind actor r = elim (get actor r.by_actor) [
  | none ↦ (r, false)
  | some b ↦ (
    record {
      by_actor = remove actor r.by_actor;
      actor_by_account = remove b.user_id r.actor_by_account;
    },
    true,
  )
]
