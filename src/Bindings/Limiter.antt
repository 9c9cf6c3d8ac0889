-- ===== src/Bindings/Limiter.antt =====
-- `BindingAttemptLimiter` of core/bindings.py: how often an actor may try to bind. The fields that
-- are set once are a record of limits, and `_attempts` is a dictionary of its own, by actor keys
-- that are validated by the caller. A time is a number of microseconds; a window whose start lies
-- before 0 is written by adding its length on the other side.
pub mod Windows
pub mod Rate
mod Examples
use sub2_ddq.Prelude.{
  ℕ, ◌+◌, Bool, true, false, Option, none, some, List, [], ◌∷◌, ◌++◌, Dict, get, put, remove, leb,
  length, if◌then◌else◌, max, min,
}
use sub2_ddq.Guardian.Contracts.{seconds}
use sub2_ddq.Bindings.{max_bindings}

pub record Limits : Type 0 where
  pub max_attempts : ℕ
  pub window_seconds : ℕ
  pub max_tracked_actors : ℕ

-- `__init__`, for which a negative argument is what 0 is.
unfoldable pub limiter_limits : ℕ → ℕ → ℕ → Limits
limiter_limits attempts window tracked = record {
  max_attempts = max 1 (min attempts 20);
  window_seconds = max 1 (min window 3600);
  max_tracked_actors = max 1 (min tracked max_bindings);
}

-- `value <= cutoff`
abbrev pub is_past : Limits → ℕ → ℕ → Bool
is_past c now t = leb (t + seconds c.window_seconds) now

-- `values[-1]` of the values that begin with `t`.
abbrev pub last_from : ℕ → List ℕ → ℕ
last_from t [] = t
last_from t (u ∷ ts) = last_from u ts

abbrev pub is_expired : Limits → ℕ → List ℕ → Bool
is_expired c now [] = true
is_expired c now (t ∷ ts) = is_past c now (last_from t ts)

abbrev pub expired_actors : Limits → ℕ → Dict (List ℕ) → List ℕ
expired_actors c now [] = []
expired_actors c now (e ∷ d) =
    let rest = expired_actors c now d in if is_expired c now e.1 then e.0 ∷ rest else rest

abbrev pub pop_all : List ℕ → Dict (List ℕ) → Dict (List ℕ)
pop_all [] d = d
pop_all (k ∷ ks) d = pop_all ks (remove k d)

-- The loop of `popleft`.
abbrev pub drop_past : Limits → ℕ → List ℕ → List ℕ
drop_past c now [] = []
drop_past c now (t ∷ ts) = let rest = drop_past c now ts in if is_past c now t then rest else t ∷ ts

-- The end of `allow`, with the attempts of the actor.
abbrev pub attempt : Limits → ℕ → ℕ → List ℕ → Dict (List ℕ) → Dict (List ℕ) × Bool
attempt c actor now values d =
    let kept = drop_past c now values in
    if leb c.max_attempts (length kept)
    then (put actor kept d, false)
    else (put actor (kept ++ (now ∷ [])) d, true)

abbrev pub attempt_new : Limits → ℕ → ℕ → Dict (List ℕ) → Dict (List ℕ) × Bool
attempt_new c actor now d =
    if leb c.max_tracked_actors (length d) then (d, false) else attempt c actor now [] d

-- `allow` with what the dictionary has for the actor.
abbrev pub allow_found : Limits → ℕ → ℕ → Dict (List ℕ) → Option (List ℕ) → Dict (List ℕ) × Bool
allow_found c actor now d (some values) = attempt c actor now values d
allow_found c actor now d none =
    if leb c.max_tracked_actors (length d)
    then attempt_new c actor now (pop_all (expired_actors c now d) d)
    else attempt c actor now [] d

unfoldable pub allow : Limits → ℕ → ℕ → Dict (List ℕ) → Dict (List ℕ) × Bool
allow c actor now d = allow_found c actor now d (get actor d)
