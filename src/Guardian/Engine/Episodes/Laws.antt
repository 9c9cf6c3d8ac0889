-- ===== src/Guardian/Engine/Episodes/Laws.antt =====
-- When a round of src/sub2api_mcp/guardian/engine.py opens an episode and when it closes one.
use sub2_ddq.Prelude.{
  ℕ, Bool, true, false, ◌&&◌, ◌||◌, Option, none, some, List, [], ◌∷◌, ◌++◌, Text, text_eq,
  text_eq_lem, text_eq_sym, if◌then◌else◌, is_some, any, ◌≡◌, refl, sym, subst, ap, ◌∙◌, inl, inr,
  arith, Bool-cases, Option-cases, and-eq-true,
}
use mathlib.Core.Option.{some_inj}
use sub2_ddq.Guardian.Engine.{ProbeEntry, get_or}
use sub2_ddq.Guardian.Engine.Episodes.{
  Episode, is_open_of, get_open_channel_error_episode, same_group, insert_episode,
  open_channel_error_episode, close_channel_error_episode, channel_error_episode_required,
  is_entry_fresh, is_entry_within_expire, Trigger, EpisodeState, EpisodeRound, has_trigger,
  add_trigger, open_or_conflict, close_if_current, episode_for, episode_step, is_channel_id,
  is_group_id,
}

text_eq_refl : (s : Text) → text_eq s s ≡ true
text_eq_refl [] = refl
text_eq_refl (c ∷ s) = ground (arith, text_eq_refl s)

-- A closed channel has no open episode.
get_open-close :
    (channel : Text) (at : ℕ) (rows : List Episode)
    → get_open_channel_error_episode channel (close_channel_error_episode channel at rows) ≡ none
unfolding get_open_channel_error_episode close_channel_error_episode
get_open-close channel at [] = refl
get_open-close channel at (e ∷ rows) = ground (arith, get_open-close channel at rows)

text_eq-other : (s t u : Text) → text_eq s t ≡ true → text_eq u t ≡ false → text_eq s u ≡ false
text_eq-other s t u h k =
    subst (λ v. text_eq v u ≡ false) (sym (text_eq_lem s t h)) (text_eq_sym t u ∙ k)

get_open-close_other :
    (other channel : Text) (at : ℕ) (rows : List Episode)
    → text_eq other channel ≡ false
    → get_open_channel_error_episode other (close_channel_error_episode channel at rows)
      ≡ get_open_channel_error_episode other rows
unfolding get_open_channel_error_episode close_channel_error_episode
get_open-close_other other channel at [] h = refl
get_open-close_other other channel at (e ∷ rows) h =
    elim (Bool-cases (text_eq e.channel_id channel)) [
      | inl c ↦
          let here : text_eq e.channel_id other ≡ false =
            text_eq-other e.channel_id channel other c h in
          ground (arith, here, c, get_open-close_other other channel at rows h)
      | inr c ↦ ground (arith, c, get_open-close_other other channel at rows h)
    ]

get_open-append :
    (channel : Text) (e : Episode) (rows : List Episode)
    → get_open_channel_error_episode channel rows ≡ none
    → get_open_channel_error_episode channel (rows ++ (e ∷ []))
      ≡ (if is_open_of channel e then some e else none)
unfolding get_open_channel_error_episode
get_open-append channel e [] h = refl
get_open-append channel e (x ∷ rows) h = ground (arith, get_open-append channel e rows)

get_open-append_other :
    (channel : Text) (e : Episode) (rows : List Episode)
    → is_open_of channel e ≡ false
    → get_open_channel_error_episode channel (rows ++ (e ∷ []))
      ≡ get_open_channel_error_episode channel rows
unfolding get_open_channel_error_episode
get_open-append_other channel e [] h = rw h refl
get_open-append_other channel e (x ∷ rows) h =
    ground (arith, get_open-append_other channel e rows h)

-- After an insertion the channel has an open episode: the old one, or the new.
get_open-insert :
    (e : Episode) (rows : List Episode)
    → e.closed_at ≡ none
    → get_open_channel_error_episode e.channel_id (insert_episode e rows)
      ≡ some (get_or e (get_open_channel_error_episode e.channel_id rows))
unfolding insert_episode
get_open-insert e rows h = elim (Option-cases (get_open_channel_error_episode e.channel_id rows)) [
  | inl n ↦ rw n (get_open-append e.channel_id e rows n ∙ rw (text_eq_refl e.channel_id, h) refl)
  | inr (o, n) ↦ rw (n, n) refl
]

get_open-insert_other :
    (other : Text) (e : Episode) (rows : List Episode)
    → text_eq other e.channel_id ≡ false
    → get_open_channel_error_episode other (insert_episode e rows)
      ≡ get_open_channel_error_episode other rows
unfolding insert_episode
get_open-insert_other other e rows h =
    elim (Bool-cases (is_some (get_open_channel_error_episode e.channel_id rows))) [
      | inl n ↦ rw n refl
      | inr n ↦
          rw n (get_open-append_other other e rows (rw (text_eq_sym e.channel_id other, h) refl))
    ]

and_false : (b : Bool) → (b && false) ≡ false
and_false true = refl
and_false false = refl

-- Every other channel keeps its open episode.
abbrev pub KeepsOthers : Text → List Episode → List Episode → Type 0
KeepsOthers channel old new =
    (other : Text)
    → get_open_channel_error_episode other new ≡ (
        if text_eq other channel
        then get_open_channel_error_episode channel new
        else get_open_channel_error_episode other old)

keeps_others :
    (channel : Text) (old new : List Episode)
    → ((other : Text)
        → text_eq other channel ≡ false
        → get_open_channel_error_episode other new ≡ get_open_channel_error_episode other old)
    → KeepsOthers channel old new
keeps_others channel old new h other = elim (Bool-cases (text_eq other channel)) [
  | inl y ↦
      rw y (ap (λ (c : Text). get_open_channel_error_episode c new) (text_eq_lem other channel y))
  | inr n ↦ rw n (h other n)
]

-- What an opening leaves: an open episode of the group, a trigger, and the other channels.
abbrev pub Opened : ProbeEntry → EpisodeState → Text → EpisodeState → Type 0
Opened e s group s' =
    (o : Episode) × (get_open_channel_error_episode e.monitor_id s'.episodes ≡ some o)
    × (same_group o.group_id (some group) ≡ true)
    × (has_trigger e.monitor_id group s'.triggers ≡ true)
    × KeepsOthers e.monitor_id s.episodes s'.episodes

module _ (r : EpisodeRound) (id : ℕ) (e : ProbeEntry) (s : EpisodeState) where
  close_if_current_lem :
      is_entry_within_expire r.now r.sampling e ≡ true
      → (get_open_channel_error_episode e.monitor_id (close_if_current r e s).episodes ≡ none)
        × ((close_if_current r e s).triggers ≡ s.triggers)
        × KeepsOthers e.monitor_id s.episodes (close_if_current r e s).episodes
  close_if_current_lem h =
      let at = get_or r.captured_at e.observed_at in
      rw h (
        get_open-close e.monitor_id at s.episodes,
        refl,
        keeps_others e.monitor_id s.episodes
            (close_channel_error_episode e.monitor_id at s.episodes)
            (λ other n. get_open-close_other other e.monitor_id at s.episodes n),
      )

  not_required :
      (group : Option Text)
      → (r.account_recovery_active
          && channel_error_episode_required e (is_entry_fresh r.now r.sampling e))
        ≡ false
      → episode_for r id e group s ≡ some (close_if_current r e s)
  not_required none h = refl
  not_required (some g) h = rw h refl

  -- An entry that asks for no episode, and whose observation is within the expiry window, closes
  -- the open episode of its channel; no trigger and no other channel's open episode changes.
  pub episode_step-closes :
      (r.account_recovery_active
          && channel_error_episode_required e (is_entry_fresh r.now r.sampling e))
        ≡ false
      → is_entry_within_expire r.now r.sampling e ≡ true
      → (s' : EpisodeState) × (episode_step r id e s ≡ some s')
        × (get_open_channel_error_episode e.monitor_id s'.episodes ≡ none)
        × (s'.triggers ≡ s.triggers)
        × KeepsOthers e.monitor_id s.episodes s'.episodes
  unfolding episode_step
  episode_step-closes h w =
      let (gone, same, others) = close_if_current_lem w in
      (close_if_current r e s, not_required e.group_id h, gone, same, others)

  -- An observation that is no longer fresh, but still within the expiry window, closes the open
  -- episode of its channel whatever its status is, a failure included.
  pub aging_failure_closes_episode :
      is_entry_fresh r.now r.sampling e ≡ false
      → is_entry_within_expire r.now r.sampling e ≡ true
      → (s' : EpisodeState) × (episode_step r id e s ≡ some s')
        × (get_open_channel_error_episode e.monitor_id s'.episodes ≡ none)
  unfolding channel_error_episode_required
  aging_failure_closes_episode n w =
      let closed = episode_step-closes (rw n (and_false r.account_recovery_active)) w in
      (closed.0, closed.1, closed.2)

get_open_holds :
    (channel : Text) (rows : List Episode) (o : Episode)
    → get_open_channel_error_episode channel rows ≡ some o
    → is_open_of channel o ≡ true
unfolding get_open_channel_error_episode
get_open_holds channel [] o h = cc
get_open_holds channel (x ∷ rows) o h = elim (Bool-cases (is_open_of channel x)) [
  | inl y ↦ subst (λ z. is_open_of channel z ≡ true) (some_inj.0 (rw y at h)) y
  | inr n ↦ get_open_holds channel rows o (rw n at h)
]

any-append :
    {A : Type 0} (p : A → Bool) (xs ys : List A) → any p (xs ++ ys) ≡ (any p xs || any p ys)
any-append p [] ys = refl
any-append p (x ∷ xs) ys = ground (arith, any-append p xs ys)

-- A trigger that is added, or was there, is there.
has_trigger_after :
    (t : Trigger) (triggers : List Trigger)
    → has_trigger t.channel_id t.group_id
        (if has_trigger t.channel_id t.group_id triggers then triggers else triggers ++ (t ∷ []))
      ≡ true
has_trigger_after t triggers = elim (Bool-cases (has_trigger t.channel_id t.group_id triggers)) [
  | inl y ↦ rw (y, y) refl
  | inr n ↦ rw n (
      any-append (λ x. text_eq x.channel_id t.channel_id && text_eq x.group_id t.group_id) triggers
        (t ∷ [])
      ∙ rw (n, text_eq_refl t.channel_id, text_eq_refl t.group_id) refl)
]

module _ (r : EpisodeRound) (id : ℕ) (e : ProbeEntry) (s : EpisodeState) (group : Text)
    (names : (is_channel_id e.monitor_id && is_group_id group) ≡ true) where
  abbrev new_episode : Episode
  new_episode = record {
    episode_id = id;
    channel_id = e.monitor_id;
    group_id = some group;
    opened_snapshot_id = r.snapshot_id;
    opened_at = get_or r.captured_at e.observed_at;
    closed_at = none;
  }

  opening :
      same_group
          (get_or new_episode (get_open_channel_error_episode e.monitor_id s.episodes)).group_id
          (some group)
        ≡ true
      → (s' : EpisodeState) × (add_trigger group
            (open_channel_error_episode id e.monitor_id group r.snapshot_id
              (get_or r.captured_at e.observed_at)
              s.episodes)
            s
          ≡ some s')
        × Opened e s group s'
  unfolding open_channel_error_episode
  opening same =
      let o = get_or new_episode (get_open_channel_error_episode e.monitor_id s.episodes) in
      let found = get_open-insert new_episode s.episodes refl in
      let rows = insert_episode new_episode s.episodes in
      let mine : o.channel_id ≡ e.monitor_id =
        text_eq_lem o.channel_id e.monitor_id
          (and-eq-true _ _ (get_open_holds e.monitor_id rows o found)).0 in
      let t : Trigger = record {
        episode_id = o.episode_id;
        channel_id = o.channel_id;
        group_id = group;
      } in
      let triggers =
        if has_trigger o.channel_id group s.triggers then s.triggers else s.triggers ++ (t ∷ []) in
      (
        record s { episodes = rows; triggers = triggers },
        rw (names, found, same) refl,
        (
          o,
          found,
          same,
          subst (λ c. has_trigger c group triggers ≡ true) mine (has_trigger_after t s.triggers),
          keeps_others e.monitor_id s.episodes rows
              (λ other n. get_open-insert_other other new_episode s.episodes n),
        ),
      )

  opening_cases :
      (old : Option Episode)
      → get_open_channel_error_episode e.monitor_id s.episodes ≡ old
      → ((o : Episode)
          → get_open_channel_error_episode e.monitor_id s.episodes ≡ some o
          → same_group o.group_id (some group) ≡ true)
      → (s' : EpisodeState) × (open_or_conflict r id e group old s ≡ some s') × Opened e s group s'
  opening_cases none h same = opening (rw h (text_eq_refl group))
  opening_cases (some o) h same =
      let mine = same o h in let (s', step, rest) = opening (rw h mine) in (s', rw mine step, rest)

-- An entry of a valid channel and group that asks for an episode, where the recovery is active and
-- no other group holds the channel's open episode, leaves the channel with an open episode of the
-- group and a trigger for both; no other channel's open episode changes.
pub episode_step-opens :
    (r : EpisodeRound) (id : ℕ) (e : ProbeEntry) (s : EpisodeState) (group : Text)
    → (is_channel_id e.monitor_id && is_group_id group) ≡ true
    → e.group_id ≡ some group
    → (r.account_recovery_active
        && channel_error_episode_required e (is_entry_fresh r.now r.sampling e))
      ≡ true
    → ((o : Episode)
        → get_open_channel_error_episode e.monitor_id s.episodes ≡ some o
        → same_group o.group_id (some group) ≡ true)
    → (s' : EpisodeState) × (episode_step r id e s ≡ some s') × Opened e s group s'
unfolding episode_step
episode_step-opens r id e s group names g required same =
    let (s', step, rest) =
      opening_cases r id e s group names (get_open_channel_error_episode e.monitor_id s.episodes)
        refl same in
    (s', ap (λ (o : Option Text). episode_for r id e o s) g ∙ rw required step, rest)
