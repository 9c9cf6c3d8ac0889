-- ===== src/Guardian/Engine/Episodes.antt =====
-- Channel error episodes: the table of src/sub2api_mcp/guardian/repository.py, and what the round of
-- src/sub2api_mcp/guardian/engine.py does to it for each entry of a snapshot.
pub mod Laws
mod Examples
use sub2_ddq.Prelude.{
  ℕ, ◌+◌, ◌*◌, Bool, true, false, not, ◌&&◌, ◌||◌, Option, none, some, List, [], ◌∷◌, ◌++◌, map,
  Text, text_eq, ltb, leb, ◌==◌, if◌then◌else◌, is_some, all, any, find_first, length, max,
}
use sub2_ddq.Guardian.Contracts.{seconds}
use sub2_ddq.Guardian.Engine.{ProbeEntry, MonitorStatus, get_or}

pub record Episode : Type 0 where
  pub episode_id : ℕ
  pub channel_id : Text
  pub group_id : Option Text
  pub opened_snapshot_id : Text
  pub opened_at : ℕ
  pub closed_at : Option ℕ

-- `status = 'OPEN'`: an episode is closed as it gets its closing time.
abbrev pub is_open_of : Text → Episode → Bool
is_open_of channel e = text_eq e.channel_id channel && not (is_some e.closed_at)

unfoldable pub get_open_channel_error_episode : Text → List Episode → Option Episode
get_open_channel_error_episode channel rows = find_first (is_open_of channel) rows

-- The guards of `open_channel_error_episode` on its texts; group IDs are ASCII.
unfoldable pub is_channel_id : Text → Bool
is_channel_id channel = leb 1 (length channel) && leb (length channel) 128

unfoldable pub is_group_id : Text → Bool
is_group_id g = all (λ c. leb 48 c && leb c 57) g && any (λ c. not (c == 48)) g && leb (length g) 20

abbrev pub same_group : Option Text → Option Text → Bool
same_group none none = true
same_group (some g) (some h) = text_eq g h
same_group _ _ = false

pub data EpisodeReply : Type 0 where
  opened : Episode → EpisodeReply
  conflict invalid : EpisodeReply

-- The row of the channel that is open, which another writer may have inserted.
abbrev pub read_back : Option Text → Option Episode → EpisodeReply
read_back group none = EpisodeReply.conflict
read_back group (some e) =
    if same_group e.group_id group then EpisodeReply.opened e else EpisodeReply.conflict

-- `INSERT ... ON CONFLICT DO NOTHING` under the unique index on an open episode of a channel.
unfoldable pub insert_episode : Episode → List Episode → List Episode
insert_episode e rows =
    if is_some (get_open_channel_error_episode e.channel_id rows) then rows else rows ++ (e ∷ [])

abbrev pub read_open : Text → Text → List Episode → List Episode × EpisodeReply
read_open channel group rows =
    (rows, read_back (some group) (get_open_channel_error_episode channel rows))

-- `open_channel_error_episode`, for a moment with a zone; the new episode's ID is fresh.
unfoldable pub open_channel_error_episode :
    ℕ → Text → Text → Text → ℕ → List Episode → List Episode × EpisodeReply
open_channel_error_episode id channel group snapshot at rows =
    if is_channel_id channel && is_group_id group
    then read_open channel group (
        insert_episode
          (record {
            episode_id = id;
            channel_id = channel;
            group_id = some group;
            opened_snapshot_id = snapshot;
            opened_at = at;
            closed_at = none;
          })
          rows)
    else (rows, EpisodeReply.invalid)

-- `close_channel_error_episode`
unfoldable pub close_channel_error_episode : Text → ℕ → List Episode → List Episode
close_channel_error_episode channel at rows =
    map (λ e. if is_open_of channel e then record e { closed_at = some at } else e) rows

-- `_channel_error_episode_required`
abbrev pub is_some_unusable : Option ℕ → Option ℕ → Option ℕ → Bool
is_some_unusable errors temporary closed =
    ltb 0 (get_or 0 errors + get_or 0 temporary + get_or 0 closed)

unfoldable pub channel_error_episode_required : ProbeEntry → Bool → Bool
channel_error_episode_required e fresh = fresh && is_some e.group_id && elim e.status [
  | MonitorStatus.operational ↦ false
  | MonitorStatus.unknown ↦ false
  | MonitorStatus.failed ↦ true
  | MonitorStatus.error ↦ true
  | MonitorStatus.degraded ↦
      is_some e.available_count
      && is_some_unusable e.error_count e.temporary_unavailable_count e.closed_count
]

pub record SamplingPolicy : Type 0 where
  pub fresh_seconds : ℕ
  pub expire_seconds : ℕ
  pub shared_snapshot_interval_seconds : ℕ

-- `SamplingPolicy.observation_window_seconds`
unfoldable pub observation_window_seconds : SamplingPolicy → ℕ
observation_window_seconds s = max s.fresh_seconds (2 * s.shared_snapshot_interval_seconds)

-- `effective_observation_windows`
unfoldable pub effective_observation_windows : SamplingPolicy → ℕ × ℕ
effective_observation_windows s =
    let fresh = max s.fresh_seconds (observation_window_seconds s) in
    (fresh, max s.expire_seconds (fresh * 2))

-- `entry_age <= timedelta(seconds=...)`, where there is an observation time.
abbrev pub is_aged : ℕ → ℕ → Option ℕ → Bool
is_aged now limit none = true
is_aged now limit (some at) = leb now (at + seconds limit)

unfoldable pub is_entry_fresh : ℕ → SamplingPolicy → ProbeEntry → Bool
is_entry_fresh now s e = is_aged now (effective_observation_windows s).0 e.observed_at

unfoldable pub is_entry_within_expire : ℕ → SamplingPolicy → ProbeEntry → Bool
is_entry_within_expire now s e = is_aged now (effective_observation_windows s).1 e.observed_at

pub record Trigger : Type 0 where
  pub episode_id : ℕ
  pub channel_id : Text
  pub group_id : Text

-- What the round carries: the table, the triggers so far and the mapping conflicts.
pub record EpisodeState : Type 0 where
  pub episodes : List Episode
  pub triggers : List Trigger
  pub conflicts : ℕ

-- The snapshot and the policy that a round works on.
pub record EpisodeRound : Type 0 where
  pub snapshot_id : Text
  pub captured_at : ℕ
  pub now : ℕ
  pub sampling : SamplingPolicy
  pub account_recovery_active : Bool

abbrev pub has_trigger : Text → Text → List Trigger → Bool
has_trigger channel group triggers =
    any (λ t. text_eq t.channel_id channel && text_eq t.group_id group) triggers

-- The trigger of an opened episode, once for a channel and its group; what is raised ends the round.
abbrev pub add_trigger : Text → List Episode × EpisodeReply → EpisodeState → Option EpisodeState
add_trigger group (rows, EpisodeReply.conflict) s = none
add_trigger group (rows, EpisodeReply.invalid) s = none
add_trigger group (rows, EpisodeReply.opened e) s =
    let t : Trigger = record {
      episode_id = e.episode_id;
      channel_id = e.channel_id;
      group_id = group;
    } in
    some (record s {
      episodes = rows;
      triggers =
          if has_trigger e.channel_id group s.triggers then s.triggers else s.triggers ++ (t ∷ []);
    })

-- The open episode of the channel, or none of another group.
abbrev pub open_or_conflict :
    EpisodeRound → ℕ → ProbeEntry → Text → Option Episode → EpisodeState → Option EpisodeState
open_or_conflict r id e group none s =
    add_trigger group
      (open_channel_error_episode id e.monitor_id group r.snapshot_id
        (get_or r.captured_at e.observed_at) s.episodes)
      s
open_or_conflict r id e group (some old) s =
    if same_group old.group_id (some group)
    then add_trigger group
        (open_channel_error_episode id e.monitor_id group r.snapshot_id
          (get_or r.captured_at e.observed_at) s.episodes)
        s
    else some (record s { conflicts = s.conflicts + 1 })

abbrev pub close_if_current : EpisodeRound → ProbeEntry → EpisodeState → EpisodeState
close_if_current r e s =
    if is_entry_within_expire r.now r.sampling e
    then record s {
      episodes =
          close_channel_error_episode e.monitor_id (get_or r.captured_at e.observed_at) s.episodes;
    }
    else s

abbrev pub episode_for :
    EpisodeRound → ℕ → ProbeEntry → Option Text → EpisodeState → Option EpisodeState
episode_for r id e none s = some (close_if_current r e s)
episode_for r id e (some group) s =
    if r.account_recovery_active
      && channel_error_episode_required e (is_entry_fresh r.now r.sampling e)
    then open_or_conflict r id e group (get_open_channel_error_episode e.monitor_id s.episodes) s
    else some (close_if_current r e s)

-- The step of `_evaluate` for one entry.
unfoldable pub episode_step : EpisodeRound → ℕ → ProbeEntry → EpisodeState → Option EpisodeState
episode_step r id e s = episode_for r id e e.group_id s

-- The entries of a snapshot, each with the ID that a new episode would get.
unfoldable pub episode_round :
    EpisodeRound → List (ℕ × ProbeEntry) → EpisodeState → Option EpisodeState
episode_round r [] s = some s
episode_round r ((id, e) ∷ entries) s = elim (episode_step r id e s) [
  | none ↦ none
  | some s' ↦ episode_round r entries s'
]
