-- ===== src/Bindings/Limiter/Rate.antt =====
-- No actor is allowed more attempts in a window than the limits of core/bindings.py say.
use sub2_ddq.Prelude.{
  ℕ, ◌≤◌, Bool, true, false, ◌&&◌, Option, none, some, List, [], ◌∷◌, ◌++◌, Dict, get, put, remove,
  leb, length, if◌then◌else◌, elem, ◌==◌, ◌≡◌, refl, sym, subst, ap, ◌∙◌, inl, inr, arith,
  Bool-cases, HasUniqueKeys, keys, get-put, get-put_other, ==_iff, HasUniqueKeys-remove,
  get-remove_if, HasUniqueKeys-put,
}
use sub2_ddq.Bindings.Limiter.{
  Limits, is_expired, expired_actors, pop_all, drop_past, attempt, attempt_new, allow_found, allow,
}
use sub2_ddq.Bindings.Limiter.Windows.{
  IsLimited, Covers, Covers-later, Covers-drop_past, Covers-expired, Covers-append,
}

-- The calls, each with its actor and its time, of which the times do not decrease.
abbrev pub is_ordered : ℕ → List (ℕ × ℕ) → Bool
is_ordered clock [] = true
is_ordered clock ((actor, now) ∷ calls) = leb clock now && is_ordered now calls

-- The times at which the actor `k` was allowed, the latest first.
unfoldable pub allowed_times : Limits → ℕ → List (ℕ × ℕ) → Dict (List ℕ) → List ℕ → List ℕ
allowed_times c k [] d times = times
allowed_times c k ((actor, now) ∷ calls) d times =
    let (next, ok) = allow c actor now d in
    allowed_times c k calls next (if ok && k == actor then now ∷ times else times)

abbrev stored : ℕ → Dict (List ℕ) → List ℕ
stored k d = elim (get k d) [ none ↦ [] | some values ↦ values ]

module _ (c : Limits) where
  expired_keys :
      (k now : ℕ) (d : Dict (List ℕ))
      → elem k (expired_actors c now d) ≡ true
      → elem k (keys d) ≡ true
  expired_keys k now [] h = h
  expired_keys k now (e ∷ d) h = ground (arith, expired_keys k now d, h)

  expired_is :
      (k now : ℕ) (d : Dict (List ℕ))
      → HasUniqueKeys d
      → elem k (expired_actors c now d) ≡ true
      → is_expired c now (stored k d) ≡ true
  expired_is k now [] u h = refl
  expired_is k now (e ∷ d) u h = elim (Bool-cases (k == e.0)) [
    | inl s ↦
        let once : elem k (keys d) ≡ false =
          subst (λ j. elem j (keys d) ≡ false) (sym ((==_iff k e.0).0 s)) (ground arith) in
        ground (arith, expired_keys k now d, once, s, h)
    | inr s ↦ ground (arith, expired_is k now d, s, h, u)
  ]

  pop_all_unique :
      (ks : List ℕ) (d : Dict (List ℕ)) → HasUniqueKeys d → HasUniqueKeys (pop_all ks d)
  pop_all_unique [] d u = u
  pop_all_unique (k ∷ ks) d u = pop_all_unique ks (remove k d) (HasUniqueKeys-remove k d u)

  get-pop_all :
      (j : ℕ) (ks : List ℕ) (d : Dict (List ℕ))
      → get j (pop_all ks d) ≡ (if elem j ks then none else get j d)
  get-pop_all j [] d = refl
  get-pop_all j (k ∷ ks) d = ground (arith, get-pop_all j ks (remove k d), get-remove_if j k d)

  stored-pop_all :
      (j : ℕ) (ks : List ℕ) (d : Dict (List ℕ))
      → stored j (pop_all ks d) ≡ (if elem j ks then [] else stored j d)
  stored-pop_all j ks d = ground (arith, get-pop_all j ks d)

  module _ (k : ℕ) where
    -- What holds after each call.
    abbrev Tracks : ℕ → Dict (List ℕ) → List ℕ → Type 0
    Tracks clock d times = HasUniqueKeys d × Covers c clock (stored k d) times

    purges :
        (now : ℕ) (d : Dict (List ℕ)) (times : List ℕ)
        → Tracks now d times
        → Tracks now (pop_all (expired_actors c now d) d) times
    purges now d times (u, covers) =
        let lookup = sym (stored-pop_all k (expired_actors c now d) d) in
        let back = subst (λ v. Covers c now v times) lookup in
        elim (Bool-cases (elem k (expired_actors c now d))) [
          | inl out ↦ (
            pop_all_unique (expired_actors c now d) d u,
            back (
                rw out (Covers-expired c now (stored k d) times (expired_is k now d u out) covers)),
          )
          | inr kept ↦ (pop_all_unique (expired_actors c now d) d u, back (rw kept covers))
        ]

    puts :
        (actor now : ℕ) (values : List ℕ) (d : Dict (List ℕ)) (times : List ℕ)
        → Tracks now d times
        → (k == actor) ≡ false
        → Tracks now (put actor values d) times
    puts actor now values d times (u, covers) other = (
      HasUniqueKeys-put actor values d u,
      subst (λ v. Covers c now v times)
          (sym
            (ap (λ v. elim v [ none ↦ [] | some xs ↦ xs ]) (get-put_other k actor values d other)))
          covers,
    )

    puts_mine :
        (now : ℕ) (values : List ℕ) (d : Dict (List ℕ)) (times : List ℕ)
        → HasUniqueKeys d
        → Covers c now values times
        → Tracks now (put k values d) times
    puts_mine now values d times u covers = (
      HasUniqueKeys-put k values d u,
      subst (λ v. Covers c now v times)
          (sym (ap (λ v. elim v [ none ↦ [] | some xs ↦ xs ]) (get-put k values d))) covers,
    )

    -- The times after a call of the actor `k` itself.
    abbrev noted : ℕ → List ℕ → Dict (List ℕ) × Bool → List ℕ
    noted now times reply = if reply.1 then now ∷ times else times

    attempts_mine :
        (now : ℕ) (values : List ℕ) (d : Dict (List ℕ)) (times : List ℕ)
        → HasUniqueKeys d
        → Covers c now values times
        → Tracks now (attempt c k now values d).0 (noted now times (attempt c k now values d))
    attempts_mine now values d times u covers =
        let kept = drop_past c now values in
        let covers' = Covers-drop_past c now values times covers in
        elim (Bool-cases (leb c.max_attempts (length kept))) [
          | inl full ↦ rw full (puts_mine now kept d times u covers')
          | inr room ↦ rw room (
              puts_mine now (kept ++ (now ∷ [])) d (now ∷ times) u
                (Covers-append c now kept times room covers'))
        ]

    attempts_other :
        (actor now : ℕ) (values : List ℕ) (d : Dict (List ℕ)) (times : List ℕ)
        → Tracks now d times
        → (k == actor) ≡ false
        → Tracks now (attempt c actor now values d).0 times
    attempts_other actor now values d times h other =
        elim (Bool-cases (leb c.max_attempts (length (drop_past c now values)))) [
          | inl full ↦ rw full (puts actor now _ d times h other)
          | inr room ↦ rw room (puts actor now _ d times h other)
        ]

    stored_is :
        (d : Dict (List ℕ)) (found : Option (List ℕ))
        → get k d ≡ found
        → stored k d ≡ elim found [ none ↦ [] | some values ↦ values ]
    stored_is d found e = ap (λ v. elim v [ none ↦ [] | some xs ↦ xs ]) e

    news_mine :
        (now : ℕ) (d : Dict (List ℕ)) (times : List ℕ)
        → HasUniqueKeys d
        → Covers c now [] times
        → Covers c now (stored k d) times
        → Tracks now (attempt_new c k now d).0 (noted now times (attempt_new c k now d))
    news_mine now d times u empty covers = elim (Bool-cases (leb c.max_tracked_actors (length d))) [
      | inl full ↦ rw full (u, covers)
      | inr room ↦ rw room (attempts_mine now [] d times u empty)
    ]

    news_other :
        (actor now : ℕ) (d : Dict (List ℕ)) (times : List ℕ)
        → Tracks now d times
        → (k == actor) ≡ false
        → Tracks now (attempt_new c actor now d).0 times
    news_other actor now d times h other = elim (Bool-cases (leb c.max_tracked_actors (length d))) [
      | inl full ↦ rw full h
      | inr room ↦ rw room (attempts_other actor now [] d times h other)
    ]

    found_mine :
        (now : ℕ) (d : Dict (List ℕ)) (times : List ℕ) (found : Option (List ℕ))
        → get k d ≡ found
        → Tracks now d times
        → Tracks now (allow_found c k now d found).0 (noted now times (allow_found c k now d found))
    found_mine now d times (some values) e (u, covers) =
        attempts_mine now values d times u
          (subst (λ v. Covers c now v times) (stored_is d (some values) e) covers)
    found_mine now d times none e (u, covers) =
        let empty = subst (λ v. Covers c now v times) (stored_is d none e) covers in
        elim (Bool-cases (leb c.max_tracked_actors (length d))) [
          | inl full ↦
              let left = pop_all (expired_actors c now d) d in
              let (u', covers') = purges now d times (u, covers) in
              let gone : stored k left ≡ [] =
                stored-pop_all k (expired_actors c now d) d ∙ ground (arith, stored_is d none e) in
              rw full (
                news_mine now left times u' (subst (λ v. Covers c now v times) gone covers')
                  covers')
          | inr room ↦ rw room (attempts_mine now [] d times u empty)
        ]

    found_other :
        (actor now : ℕ) (d : Dict (List ℕ)) (times : List ℕ) (found : Option (List ℕ))
        → Tracks now d times
        → (k == actor) ≡ false
        → Tracks now (allow_found c actor now d found).0 times
    found_other actor now d times (some values) h other =
        attempts_other actor now values d times h other
    found_other actor now d times none h other =
        elim (Bool-cases (leb c.max_tracked_actors (length d))) [
          | inl full ↦ rw full (news_other actor now _ times (purges now d times h) other)
          | inr room ↦ rw room (attempts_other actor now [] d times h other)
        ]

    times_mine :
        (ok mine : Bool) (x y : List ℕ)
        → mine ≡ true
        → (if ok then x else y) ≡ (if ok && mine then x else y)
    times_mine true mine x y h = rw h refl
    times_mine false mine x y h = refl

    times_other : (ok mine : Bool) (x y : List ℕ) → mine ≡ false → y ≡ (if ok && mine then x else y)
    times_other true mine x y h = rw h refl
    times_other false mine x y h = refl

    allows :
        (actor now : ℕ) (d : Dict (List ℕ)) (times : List ℕ)
        → Tracks now d times
        → Tracks now
            (allow c actor now d).0
            (if (allow c actor now d).1 && k == actor then now ∷ times else times)
    unfolding allow
    allows actor now d times h =
        let next = allow c actor now d in
        elim (Bool-cases (k == actor)) [
          | inl mine ↦
              let tracked : Tracks now next.0 (noted now times next) =
                subst (λ a. Tracks now (allow c a now d).0 (noted now times (allow c a now d)))
                  ((==_iff k actor).0 mine) (found_mine now d times (get k d) refl h) in
              subst (Tracks now next.0) (times_mine next.1 (k == actor) (now ∷ times) times mine)
                tracked
          | inr other ↦
              subst (Tracks now next.0) (times_other next.1 (k == actor) (now ∷ times) times other)
                (found_other actor now d times (get actor d) h other)
        ]

    runs :
        (calls : List (ℕ × ℕ)) (clock : ℕ) (d : Dict (List ℕ)) (times : List ℕ)
        → is_ordered clock calls ≡ true
        → Tracks clock d times
        → IsLimited c (allowed_times c k calls d times)
    unfolding allowed_times
    runs [] clock d times o h = h.1.3
    runs ((actor, now) ∷ calls) clock d times o (u, covers) =
        let le : clock ≤ now = ground (arith, o) in
        let rest : is_ordered now calls ≡ true = ground (arith, o) in
        runs calls now (allow c actor now d).0 _ rest
          (allows actor now d times (u, Covers-later c clock now (stored k d) times le covers))

-- Whoever else calls in between, and whatever the limiter forgets of the actors it tracks: an actor
-- is allowed at most `max_attempts` times in a window that ends with one of its allowed attempts.
-- The limiter starts empty, and the clock is assumed not to go back.
pub allowed_times-IsLimited :
    (c : Limits) (k : ℕ) (calls : List (ℕ × ℕ))
    → is_ordered 0 calls ≡ true
    → IsLimited c (allowed_times c k calls [] [])
allowed_times-IsLimited c k calls o =
    runs c k calls 0 [] [] o (refl, (refl, refl, (λ t le. omega arith), tt))
