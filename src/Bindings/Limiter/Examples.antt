-- ===== src/Bindings/Limiter/Examples.antt =====
-- Two actors that take turns.
use sub2_ddq.Prelude.{ℕ, List, [], ◌∷◌, ◌≡◌, refl}
use sub2_ddq.Guardian.Contracts.{seconds}
use sub2_ddq.Bindings.Limiter.{Limits, limiter_limits, allow}
use sub2_ddq.Bindings.Limiter.Rate.{allowed_times, allowed_times-IsLimited}
use sub2_ddq.Bindings.Limiter.Windows.{IsLimited}

-- Two attempts in ten seconds, for one actor at a time.
abbrev limits : Limits
limits = limiter_limits 2 10 1

abbrev calls : List (ℕ × ℕ)
calls =
    (1, seconds 1)
    ∷ (1, seconds 2)
    ∷ (2, seconds 3)
    ∷ (1, seconds 4)
    ∷ (2, seconds 12)
    ∷ (1, seconds 13)
    ∷ (1, seconds 23)
    ∷ []

allowed_times-IsLimited_example : IsLimited limits (allowed_times limits 1 calls [] [])
allowed_times-IsLimited_example = allowed_times-IsLimited limits 1 calls refl

-- The third attempt in ten seconds is refused, and the other actor takes the only place at 12.
times : allowed_times limits 1 calls [] [] ≡ seconds 23 ∷ seconds 2 ∷ seconds 1 ∷ []
unfolding allowed_times allow limiter_limits
times = refl
