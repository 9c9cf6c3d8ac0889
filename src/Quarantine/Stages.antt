-- ===== src/Quarantine/Stages.antt =====
-- What the quarantine registry promises, without its tables: each account is in one of four stages,
-- an operation moves the stage of its own account, and the registry counts the accounts that are
-- not absent.
use sub2_ddq.Prelude.{
  ℕ, ◌+◌, ◌-◌, Bool, true, false, Option, none, some, get, leb, ◌==◌, if◌then◌else◌, List, [], ◌∷◌,
}
use sub2_ddq.Guardian.Contracts.{Moment}
use sub2_ddq.Quarantine.Records.{AccountQuarantineRecord, AccountQuarantineIntent}
use sub2_ddq.Quarantine.Probe.{Probe, probe_row, is_never, update_account_quarantine_probe}
use sub2_ddq.Quarantine.{
  Registry, Reply, QuarantineError, marker_of, registry_count, max_account_quarantines,
  upsert_account_quarantine, upsert_account_quarantine_intent, promote_account_quarantine_intent,
  remove_account_quarantine_intent, begin_account_quarantine_restore,
  complete_account_quarantine_restore, cancel_account_quarantine_restore,
  remove_verified_account_quarantine,
}

-- A call of one of the operations that write.
pub data Op : Type 0 where
  upsert : AccountQuarantineRecord → Op
  intend : AccountQuarantineIntent → Op
  promote drop complete cancel remove_verified : ℕ → Op
  begin : ℕ → ℕ → Op
  update_probe : ℕ → Probe → Op

unfoldable pub account_of : Op → ℕ
account_of (Op.upsert r) = r.account_id
account_of (Op.intend i) = i.account_id
account_of (Op.promote id) = id
account_of (Op.drop id) = id
account_of (Op.complete id) = id
account_of (Op.cancel id) = id
account_of (Op.remove_verified id) = id
account_of (Op.begin id now) = id
account_of (Op.update_probe id p) = id

unfoldable pub exec : Op → Registry → Registry × Reply
exec (Op.upsert r) g = upsert_account_quarantine r g
exec (Op.intend i) g = upsert_account_quarantine_intent i g
exec (Op.promote id) g = promote_account_quarantine_intent id g
exec (Op.drop id) g = remove_account_quarantine_intent id g
exec (Op.complete id) g = complete_account_quarantine_restore id g
exec (Op.cancel id) g = cancel_account_quarantine_restore id g
exec (Op.remove_verified id) g = remove_verified_account_quarantine id g
exec (Op.begin id now) g = begin_account_quarantine_restore id now g
exec (Op.update_probe id p) g = update_account_quarantine_probe id p g

-- The replies of a sequence of calls, and the registry after it.
unfoldable pub run_ops : List Op → Registry → Registry × List Reply
run_ops [] g = (g, [])
run_ops (op ∷ ops) g =
    let (g', reply) = exec op g in let (last, replies) = run_ops ops g' in (last, reply ∷ replies)

pub data Stage : Type 0 where
  absent : Stage
  pending : AccountQuarantineIntent → Stage
  quarantined : AccountQuarantineRecord → Stage
  restoring : AccountQuarantineRecord → ℕ → Stage

abbrev pub stage_upsert : AccountQuarantineRecord → Bool → Stage → Stage × Reply
stage_upsert r full Stage.absent =
    if full
    then (Stage.absent, Reply.raised QuarantineError.capacity_reached)
    else (Stage.quarantined r, Reply.quarantine r)
stage_upsert r full (Stage.pending i) =
    (Stage.pending i, Reply.raised QuarantineError.transition_conflict)
stage_upsert r full (Stage.quarantined old) = (Stage.quarantined old, Reply.quarantine old)
stage_upsert r full (Stage.restoring old t) = (Stage.restoring old t, Reply.quarantine old)

abbrev pub stage_intend : AccountQuarantineIntent → Bool → Stage → Stage × Reply
stage_intend i full Stage.absent =
    if full
    then (Stage.absent, Reply.raised QuarantineError.capacity_reached)
    else (Stage.pending i, Reply.intent i)
stage_intend i full (Stage.pending old) = (Stage.pending old, Reply.intent old)
stage_intend i full (Stage.quarantined r) =
    (Stage.quarantined r, Reply.raised QuarantineError.transition_conflict)
stage_intend i full (Stage.restoring r t) =
    (Stage.restoring r t, Reply.raised QuarantineError.transition_conflict)

abbrev pub stage_promote : Stage → Stage × Reply
stage_promote (Stage.pending i) = (Stage.quarantined (marker_of i), Reply.quarantine (marker_of i))
stage_promote Stage.absent = (Stage.absent, Reply.nothing)
stage_promote (Stage.quarantined r) = (Stage.quarantined r, Reply.nothing)
stage_promote (Stage.restoring r t) = (Stage.restoring r t, Reply.nothing)

abbrev pub stage_drop : Stage → Stage × Reply
stage_drop (Stage.pending i) = (Stage.absent, Reply.removed true)
stage_drop Stage.absent = (Stage.absent, Reply.removed false)
stage_drop (Stage.quarantined r) = (Stage.quarantined r, Reply.removed false)
stage_drop (Stage.restoring r t) = (Stage.restoring r t, Reply.removed false)

abbrev pub stage_complete : Stage → Stage × Reply
stage_complete (Stage.restoring r t) = (Stage.absent, Reply.quarantine r)
stage_complete Stage.absent = (Stage.absent, Reply.nothing)
stage_complete (Stage.pending i) = (Stage.pending i, Reply.nothing)
stage_complete (Stage.quarantined r) = (Stage.quarantined r, Reply.nothing)

abbrev pub stage_cancel : Stage → Stage × Reply
stage_cancel (Stage.restoring r t) = (Stage.quarantined r, Reply.removed true)
stage_cancel Stage.absent = (Stage.absent, Reply.removed false)
stage_cancel (Stage.pending i) = (Stage.pending i, Reply.removed false)
stage_cancel (Stage.quarantined r) = (Stage.quarantined r, Reply.removed false)

abbrev pub stage_remove : Stage → Stage × Reply
stage_remove (Stage.quarantined r) = (Stage.absent, Reply.removed true)
stage_remove (Stage.restoring r t) = (Stage.absent, Reply.removed true)
stage_remove Stage.absent = (Stage.absent, Reply.removed false)
stage_remove (Stage.pending i) = (Stage.pending i, Reply.removed false)

abbrev pub stage_begin : ℕ → Stage → Stage × Reply
stage_begin now (Stage.quarantined r) = (Stage.restoring r now, Reply.restore now)
stage_begin now (Stage.restoring r t) = (Stage.restoring r t, Reply.restore t)
stage_begin now Stage.absent = (Stage.absent, Reply.raised QuarantineError.not_found)
stage_begin now (Stage.pending i) = (Stage.pending i, Reply.raised QuarantineError.not_found)

-- A quarantine with the row that a probe gives, under the stage's own constructor.
abbrev pub stage_probed :
    (AccountQuarantineRecord → Stage)
    → AccountQuarantineRecord
    → Option AccountQuarantineRecord
    → Stage × Reply
stage_probed wrap r none = (wrap r, Reply.raised QuarantineError.value_error)
stage_probed wrap r (some row) = (wrap row, Reply.quarantine row)

abbrev pub stage_probe_at : Probe → ℕ → Stage → Stage × Reply
stage_probe_at p at (Stage.quarantined r) = stage_probed Stage.quarantined r (probe_row at p r)
stage_probe_at p at (Stage.restoring r t) =
    stage_probed (λ row. Stage.restoring row t) r (probe_row at p r)
stage_probe_at p at Stage.absent = (Stage.absent, Reply.raised QuarantineError.not_found)
stage_probe_at p at (Stage.pending i) = (Stage.pending i, Reply.raised QuarantineError.not_found)

abbrev pub stage_probe : Probe → Moment → Stage → Stage × Reply
stage_probe p (Moment.naive at) s = (s, Reply.raised QuarantineError.value_error)
stage_probe p (Moment.aware at) s =
    if is_never p.outcome
    then (s, Reply.raised QuarantineError.value_error)
    else stage_probe_at p at s

-- What a call does to the stage of its account; the Boolean tells that the registry is full.
unfoldable pub account_step : Op → Bool → Stage → Stage × Reply
account_step (Op.upsert r) full s = stage_upsert r full s
account_step (Op.intend i) full s = stage_intend i full s
account_step (Op.promote id) full s = stage_promote s
account_step (Op.drop id) full s = stage_drop s
account_step (Op.complete id) full s = stage_complete s
account_step (Op.cancel id) full s = stage_cancel s
account_step (Op.remove_verified id) full s = stage_remove s
account_step (Op.begin id now) full s = stage_begin now s
account_step (Op.update_probe id p) full s = stage_probe p p.probed_at s

pub record Accounts : Type 0 where
  pub size : ℕ
  pub stage : ℕ → Stage

abbrev pub weight : Stage → ℕ
weight Stage.absent = 0
weight _ = 1

abbrev pub update_stage : ℕ → Stage → (ℕ → Stage) → ℕ → Stage
update_stage id s f j = if j == id then s else f j

unfoldable pub step : Op → Accounts → Accounts × Reply
step op a =
    let id = account_of op in
    let (s, reply) = account_step op (leb max_account_quarantines a.size) (a.stage id) in
    (
      record { size = a.size + weight s - weight (a.stage id); stage = update_stage id s a.stage },
      reply,
    )

unfoldable pub replay : List Op → Accounts → Accounts × List Reply
replay [] a = (a, [])
replay (op ∷ ops) a =
    let (a', reply) = step op a in let (last, replies) = replay ops a' in (last, reply ∷ replies)

-- The stage that the three tables give an account.
abbrev pub stage_of :
    Option AccountQuarantineRecord → Option AccountQuarantineIntent → Option ℕ → Stage
stage_of (some r) i (some t) = Stage.restoring r t
stage_of (some r) i none = Stage.quarantined r
stage_of none (some i) t = Stage.pending i
stage_of none none t = Stage.absent

unfoldable pub stage_in : Registry → ℕ → Stage
stage_in g id = stage_of (get id g.quarantines) (get id g.intents) (get id g.restores)

unfoldable pub accounts_of : Registry → Accounts
accounts_of g = record { size = registry_count g; stage = stage_in g }
