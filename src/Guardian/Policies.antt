-- ===== src/Guardian/Policies.antt =====
-- The row of the Guardian policy in src/sub2api_mcp/guardian/repository.py, and the patch of
-- src/sub2api_mcp/guardian/service.py that reads it, changes it and writes it back. The policy is a
-- parameter, without the revision, which is the row's. `none` is a table without the row.
pub mod Revisions
mod Examples
use sub2_ddq.Prelude.{
  ℕ, ◌+◌, Bool, true, false, Option, none, some, List, [], ◌∷◌, ◌==◌, if◌then◌else◌,
}

module _ (P : Type 0) where
  pub record PolicyRow : Type 0 where
    pub policy : P
    pub revision : ℕ

  pub data PolicyReply : Type 0 where
    saved : PolicyRow → PolicyReply
    revision_conflict not_initialized : PolicyReply

  -- The insert of `initialize` that does nothing on a conflict.
  unfoldable pub initialize_policy : P → Option PolicyRow → Option PolicyRow
  initialize_policy default none = some (record { policy = default; revision = 1 })
  initialize_policy default (some r) = some r

  -- `update_policy` of the repository, of which the lock on the row makes one step.
  unfoldable pub update_policy : P → ℕ → Option PolicyRow → Option PolicyRow × PolicyReply
  update_policy policy expected none = (none, PolicyReply.not_initialized)
  update_policy policy expected (some r) =
      let next : PolicyRow = record { policy = policy; revision = expected + 1 } in
      if r.revision == expected
      then (some next, PolicyReply.saved next)
      else (some r, PolicyReply.revision_conflict)

  -- `update_policy` of the service: the patch of the policy that was read, after what happened in
  -- between.
  unfoldable pub patch_policy :
      (P → P)
      → ℕ
      → (Option PolicyRow → Option PolicyRow)
      → Option PolicyRow
      → Option PolicyRow × PolicyReply
  patch_policy merge expected meanwhile none = (meanwhile none, PolicyReply.not_initialized)
  patch_policy merge expected meanwhile (some r) =
      update_policy (merge r.policy) expected (meanwhile (some r))
