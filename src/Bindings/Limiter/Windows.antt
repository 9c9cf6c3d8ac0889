-- ===== src/Bindings/Limiter/Windows.antt =====
-- The attempts that core/bindings.py keeps of one actor, and what a window holds of them.
use sub2_ddq.Prelude.{
  ℕ, ◌+◌, ◌≤◌, Bool, true, false, ◌&&◌, List, [], ◌∷◌, ◌++◌, leb, ltb, length, count, all, ◌≡◌,
  refl, arith,
}
use sub2_ddq.Guardian.Contracts.{seconds}
use sub2_ddq.Bindings.Limiter.{Limits, last_from, is_expired, drop_past}

-- How many of the times lie in the window that ends at `t`, for times up to `t`.
abbrev pub in_window : Limits → ℕ → List ℕ → ℕ
in_window c t times = count (λ s. ltb t (s + seconds c.window_seconds)) times

-- Each time is one of at most `max_attempts` in the window that ends with it.
abbrev pub IsLimited : Limits → List ℕ → Type 0
IsLimited c [] = Unit
IsLimited c (t ∷ times) = (in_window c t (t ∷ times) ≤ c.max_attempts) × IsLimited c times

abbrev pub ascends : List ℕ → Bool
ascends [] = true
ascends (t ∷ ts) = all (leb t) ts && ascends ts

module _ (c : Limits) where
  -- The stored values, the allowed times and the clock.
  abbrev pub Covers : ℕ → List ℕ → List ℕ → Type 0
  Covers clock values times =
      (all (λ s. leb s clock) values ≡ true)
      × (ascends values ≡ true)
      × ((t : ℕ) → clock ≤ t → in_window c t times ≤ in_window c t values)
      × IsLimited c times

  all_later :
      (clock now : ℕ) (values : List ℕ)
      → clock ≤ now
      → all (λ s. leb s clock) values ≡ true
      → all (λ s. leb s now) values ≡ true
  all_later clock now [] h e = refl
  all_later clock now (t ∷ ts) h e = ground (arith, all_later clock now ts h, e)

  pub Covers-later :
      (clock now : ℕ) (values times : List ℕ)
      → clock ≤ now
      → Covers clock values times
      → Covers now values times
  Covers-later clock now values times h (below, up, more, limited) =
      (all_later clock now values h below, up, λ t le. more t (omega arith), limited)

  all-drop_past :
      (p : ℕ → Bool) (now : ℕ) (values : List ℕ)
      → all p values ≡ true
      → all p (drop_past c now values) ≡ true
  all-drop_past p now [] h = refl
  all-drop_past p now (t ∷ ts) h = ground (arith, all-drop_past p now ts, h)

  ascends-drop_past :
      (now : ℕ) (values : List ℕ) → ascends values ≡ true → ascends (drop_past c now values) ≡ true
  ascends-drop_past now [] h = refl
  ascends-drop_past now (t ∷ ts) h = ground (arith, ascends-drop_past now ts, h)

  in_window-drop_past :
      (now t : ℕ) (values : List ℕ)
      → now ≤ t
      → in_window c t (drop_past c now values) ≡ in_window c t values
  in_window-drop_past now t [] h = refl
  in_window-drop_past now t (s ∷ ts) h = ground (arith, in_window-drop_past now t ts, h)

  pub Covers-drop_past :
      (now : ℕ) (values times : List ℕ)
      → Covers now values times
      → Covers now (drop_past c now values) times
  Covers-drop_past now values times (below, up, more, limited) = (
    all-drop_past (λ s. leb s now) now values below,
    ascends-drop_past now values up,
    λ t le. rw (in_window-drop_past now t values le) (more t le),
    limited,
  )

  last_from-le : (t : ℕ) (ts : List ℕ) → ascends (t ∷ ts) ≡ true → t ≤ last_from t ts
  last_from-le t [] h = omega arith
  last_from-le t (u ∷ ts) h = ground (arith, last_from-le u ts, h)

  expired_empty :
      (now t : ℕ) (values : List ℕ)
      → now ≤ t
      → ascends values ≡ true
      → is_expired c now values ≡ true
      → in_window c t values ≡ 0
  expired_empty now t [] le up h = refl
  expired_empty now t (s ∷ []) le up h = ground (arith, h)
  expired_empty now t (s ∷ u ∷ ts) le up h =
      ground (arith, expired_empty now t (u ∷ ts) le, last_from-le s (u ∷ ts), h, up)

  pub Covers-expired :
      (now : ℕ) (values times : List ℕ)
      → is_expired c now values ≡ true
      → Covers now values times
      → Covers now [] times
  Covers-expired now values times h (below, up, more, limited) =
      (refl, refl, λ t le. ground (arith, more t le, expired_empty now t values le up h), limited)

  all-append :
      (p : ℕ → Bool) (values : List ℕ) (t : ℕ)
      → all p values ≡ true
      → p t ≡ true
      → all p (values ++ (t ∷ [])) ≡ true
  all-append p [] t h e = ground (arith, e)
  all-append p (s ∷ ts) t h e = ground (arith, all-append p ts t, h, e)

  ascends-append :
      (now : ℕ) (values : List ℕ)
      → ascends values ≡ true
      → all (λ s. leb s now) values ≡ true
      → ascends (values ++ (now ∷ [])) ≡ true
  ascends-append now [] up below = refl
  ascends-append now (t ∷ ts) up below =
      ground (arith, ascends-append now ts, all-append (leb t) ts now, up, below)

  in_window-append :
      (t now : ℕ) (values : List ℕ)
      → in_window c t (values ++ (now ∷ [])) ≡ in_window c t (now ∷ values)
  in_window-append t now [] = refl
  in_window-append t now (s ∷ ts) = ground (arith, in_window-append t now ts)

  in_window-le : (t : ℕ) (values : List ℕ) → in_window c t values ≤ length values
  in_window-le t [] = omega arith
  in_window-le t (s ∷ ts) = ground (arith, in_window-le t ts)

  pub Covers-append :
      (now : ℕ) (values times : List ℕ)
      → leb c.max_attempts (length values) ≡ false
      → Covers now values times
      → Covers now (values ++ (now ∷ [])) (now ∷ times)
  Covers-append now values times room (below, up, more, limited) = (
    all-append (λ s. leb s now) values now below (ground arith),
    ascends-append now values up below,
    λ t le. rw (in_window-append t now values) (ground (arith, more t le)),
    (ground (arith, more now (omega arith), in_window-le now values, room), limited),
  )
