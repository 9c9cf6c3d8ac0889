-- ===== src/Guardian/Executor/Run.antt =====
-- The loop of `execute`: the counts add up, and an unverified write ends all further calls.
use sub2_ddq.Prelude.{ℕ, ◌+◌, ◌≡◌, refl, Bool, true, false, List, [], ◌∷◌, All, length, arith}
use sub2_ddq.Guardian.Contracts.{AccountRecoveryResult, AccountRecoveryRunTrigger}
use sub2_ddq.Guardian.Executor.{
  Verdict, Round, Counts, Recorded, Outcome, count_verdict, round_verdict, execute_rounds,
  close_round,
}

abbrev pub results : Counts → ℕ
results c = c.enabled + c.disabled + c.indeterminate + c.skipped

-- An account that was only written down as skipped.
abbrev pub IsQuiet : Recorded → Type 0
IsQuiet e = (e.verdict.calls ≡ []) × (e.verdict.result ≡ AccountRecoveryResult.skipped)

-- Behind each verdict that stops the run all accounts are quiet.
abbrev pub QuietAfterStop : List Recorded → Type 0
QuietAfterStop [] = Unit
QuietAfterStop (e ∷ es) = (e.verdict.stop ≡ true → All IsQuiet es) × QuietAfterStop es

module _ (trigger : AccountRecoveryRunTrigger) where
  results-count_verdict : (v : Verdict) (c : Counts) → results (count_verdict v c) ≡ results c + 1
  results-count_verdict v c = ground arith

  -- Every recorded account is counted once under its result, and a run that ends as succeeded has
  -- recorded all its accounts.
  pub execute_rounds_accounts :
      (stop : Bool) (counts : Counts) (rounds : List Round)
      → let out = execute_rounds trigger stop counts rounds in
        (results out.1 ≡ results counts + length out.2)
        × (out.0 ≡ Outcome.succeeded → length out.2 ≡ length rounds)
  unfolding execute_rounds
  execute_rounds_accounts stop counts [] = (omega arith, λ h. refl)
  execute_rounds_accounts stop counts (r ∷ rest) =
      let v = round_verdict trigger stop r in
      let (n, k) = execute_rounds_accounts v.stop (count_verdict v counts) rest in
      (ground (arith, n, results-count_verdict v counts), λ h. ground (arith, k))

  close_round-All :
      (lost renewed : Bool) (before after : Counts) (e : Recorded)
      (out : Outcome × Counts × List Recorded)
      → IsQuiet e
      → All IsQuiet out.2
      → All IsQuiet (close_round lost renewed before after e out).2
  unfolding close_round
  close_round-All true renewed before after e out q qs = tt
  close_round-All false false before after e out q qs = (q, tt)
  close_round-All false true before after e out q qs = (q, qs)

  stopped_rounds :
      (counts : Counts) (rounds : List Round)
      → All IsQuiet (execute_rounds trigger true counts rounds).2
  unfolding execute_rounds round_verdict
  stopped_rounds counts [] = tt
  stopped_rounds counts (r ∷ rest) =
      close_round-All r.lease_lost r.renewed counts _ _ _ (refl, refl)
        (stopped_rounds (count_verdict (round_verdict trigger true r) counts) rest)

  close_round-QuietAfterStop :
      (lost renewed : Bool) (before after : Counts) (e : Recorded)
      (out : Outcome × Counts × List Recorded)
      → (e.verdict.stop ≡ true → All IsQuiet out.2)
      → QuietAfterStop out.2
      → QuietAfterStop (close_round lost renewed before after e out).2
  unfolding close_round
  close_round-QuietAfterStop true renewed before after e out q qs = tt
  close_round-QuietAfterStop false false before after e out q qs = (λ _. tt, tt)
  close_round-QuietAfterStop false true before after e out q qs = (q, qs)

  -- Behind the first account whose verdict stops the run, every recorded account is skipped
  -- without a test, an enable or a disable call.
  pub execute_rounds-QuietAfterStop :
      (stop : Bool) (counts : Counts) (rounds : List Round)
      → QuietAfterStop (execute_rounds trigger stop counts rounds).2
  unfolding execute_rounds
  execute_rounds-QuietAfterStop stop counts [] = tt
  execute_rounds-QuietAfterStop stop counts (r ∷ rest) =
      let v = round_verdict trigger stop r in
      close_round-QuietAfterStop r.lease_lost r.renewed counts (count_verdict v counts) _
        (execute_rounds trigger v.stop (count_verdict v counts) rest)
        (λ h. rw h (stopped_rounds (count_verdict v counts) rest))
        (execute_rounds-QuietAfterStop v.stop (count_verdict v counts) rest)
