-- ===== src/Guardian/Engine/Episodes/Examples.antt =====
-- Episodes of one channel over a few snapshots.
use sub2_ddq.Prelude.{ℕ, true, false, ◌&&◌, none, some, [], ◌∷◌, codes, ◌≡◌, refl}
use sub2_ddq.Guardian.Contracts.{seconds}
use sub2_ddq.Guardian.Engine.{ProbeEntry, MonitorStatus}
use sub2_ddq.Guardian.Engine.Episodes.{
  Episode, EpisodeRound, EpisodeState, episode_step, get_open_channel_error_episode,
  channel_error_episode_required, is_entry_fresh, is_entry_within_expire,
  effective_observation_windows, observation_window_seconds, is_channel_id, is_group_id, same_group,
}
use sub2_ddq.Guardian.Engine.Episodes.Laws.{
  KeepsOthers, Opened, episode_step-opens, episode_step-closes, aging_failure_closes_episode,
}

abbrev failing : ProbeEntry
failing = record {
  monitor_id = codes "m1";
  group_id = some (codes "12");
  status = MonitorStatus.failed;
  observed_at = some (seconds 1000);
  latency_ms = none;
  upstream_schedulable = true;
  available_count = some 2;
  error_count = some 1;
  temporary_unavailable_count = none;
  closed_count = none;
}

abbrev round_at : ℕ → EpisodeRound
round_at now = record {
  snapshot_id = codes "s1";
  captured_at = seconds 1000;
  now = now;
  sampling = record {
    fresh_seconds = 180;
    expire_seconds = 600;
    shared_snapshot_interval_seconds = 60;
  };
  account_recovery_active = true;
}

abbrev quiet : EpisodeState
quiet = record { episodes = []; triggers = []; conflicts = 0 }

abbrev episode : Episode
episode = record {
  episode_id = 1;
  channel_id = codes "m1";
  group_id = some (codes "12");
  opened_snapshot_id = codes "s0";
  opened_at = seconds 900;
  closed_at = none;
}

abbrev troubled : EpisodeState
troubled = record { episodes = episode ∷ []; triggers = []; conflicts = 0 }

abbrev recovered : ProbeEntry
recovered = record failing { status = MonitorStatus.operational }

names : (is_channel_id (codes "m1") && is_group_id (codes "12")) ≡ true
unfolding is_channel_id is_group_id
names = refl

required :
    channel_error_episode_required failing
      (is_entry_fresh (seconds 1100) (round_at 0).sampling failing)
    ≡ true
unfolding channel_error_episode_required is_entry_fresh effective_observation_windows
    observation_window_seconds
required = refl

none_open :
    (o : Episode)
    → get_open_channel_error_episode (codes "m1") [] ≡ some o
    → same_group o.group_id (some (codes "12")) ≡ true
unfolding get_open_channel_error_episode
none_open o h = cc

episode_step-opens_example :
    (s' : EpisodeState) × (episode_step (round_at (seconds 1100)) 7 failing quiet ≡ some s')
    × Opened failing quiet (codes "12") s'
episode_step-opens_example =
    episode_step-opens (round_at (seconds 1100)) 7 failing quiet (codes "12") names refl required
      none_open

not_required :
    channel_error_episode_required recovered
      (is_entry_fresh (seconds 1100) (round_at 0).sampling recovered)
    ≡ false
unfolding channel_error_episode_required is_entry_fresh effective_observation_windows
    observation_window_seconds
not_required = refl

current :
    (e : ProbeEntry)
    → e.observed_at ≡ some (seconds 1000)
    → is_entry_within_expire (seconds 1100) (round_at 0).sampling e ≡ true
unfolding is_entry_within_expire effective_observation_windows observation_window_seconds
current e h = rw h refl

episode_step-closes_example :
    (s' : EpisodeState) × (episode_step (round_at (seconds 1100)) 7 recovered troubled ≡ some s')
    × (get_open_channel_error_episode (codes "m1") s'.episodes ≡ none)
    × (s'.triggers ≡ [])
    × KeepsOthers (codes "m1") (episode ∷ []) s'.episodes
episode_step-closes_example =
    episode_step-closes (round_at (seconds 1100)) 7 recovered troubled not_required
      (current recovered refl)

-- 500 seconds old: not fresh, but within the expiry window of 600 seconds.
aged : is_entry_fresh (seconds 1500) (round_at 0).sampling failing ≡ false
unfolding is_entry_fresh effective_observation_windows observation_window_seconds
aged = refl

unexpired : is_entry_within_expire (seconds 1500) (round_at 0).sampling failing ≡ true
unfolding is_entry_within_expire effective_observation_windows observation_window_seconds
unexpired = refl

aging_failure_closes_episode_example :
    (s' : EpisodeState) × (episode_step (round_at (seconds 1500)) 7 failing troubled ≡ some s')
    × (get_open_channel_error_episode (codes "m1") s'.episodes ≡ none)
aging_failure_closes_episode_example =
    aging_failure_closes_episode (round_at (seconds 1500)) 7 failing troubled aged unexpired
