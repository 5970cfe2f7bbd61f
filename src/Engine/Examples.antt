-- ===== src/Engine/Examples.antt =====
-- A daemon that answers, engines in their states, and the theorems about cluster/engine.go and
-- network.go applied to them.
use cattle.Prelude.{
  any, ℕ, suc, ◌+◌, ◌-◌, ◌*◌, ◌<◌, ◌≤◌, ◌^◌, ◌≡◌, ◌↔◌, ◌⊎◌, refl, true, false, List, [], ◌∷◌, none,
  some, Text, text, text_eq, ℤ, pos, ok, err, arith,
}
use cattle.Cluster.Data.{EngineData}
use cattle.Cluster.Examples.{codec, config_with}
use cattle.Engine.Data.{Engine, EngineState, pending, unhealthy, healthy, Network, Volume, ApiError}
use cattle.Engine.Call.{Daemon, Machine, Summary, Inspection, SystemInfo}
use cattle.Engine.Health.{
  health_indicator, answered, emit, is_connection_error, validation_complete, time_to_validate,
}
use cattle.Engine.Health.Indicator.{health_indicator_bounds}
use cattle.Engine.Health.Backoff.{time_to_validate_regimes}
use cattle.Engine.Health.States.{validated, Move, Step-Move, IsSteady}
use cattle.Engine.Health.Failing.{fail_all, fail_all_threshold, answered_recovers}
use cattle.Engine.Shares.{cpus_of_shares-shares_of_cpus}
use cattle.Engine.Cache.{config_of, cpus_of_shares, refresh_containers}
use cattle.Engine.Methods.{shares_of_cpus, Message}
use cattle.Engine.Mirror.{Distinct, keys, is_key, refresh_containers-keys}
use cattle.Engine.Keeping.Handling.{handle_all, handle_all-IsSteady}

abbrev pub engine_data : Text → EngineData
engine_data id = record { engine_id = id; engine_name = id; engine_addr = id; engine_labels = [] }

-- An engine that may fail three times.
abbrev pub engine_in : EngineState → ℕ → Engine
engine_in state count = record {
  about = engine_data (text "e1");
  cpus = pos 4;
  memory = pos 1000;
  version = [];
  containers = [];
  images = [];
  networks = [];
  volumes = [];
  has_handler = true;
  has_monitor = true;
  engine_state = state;
  last_error = [];
  updated_at = pos 0;
  failure_count = pos count;
  overcommit_ratio = pos 5;
  failure_retry = pos 3;
  delta_duration = pos 0;
}

abbrev pub refused : ApiError
refused = record {
  message = text "refused";
  is_refused = true;
  is_connection_failed = false;
  is_image_missing = false;
}

abbrev pub network_of : Text → Text → Network
network_of id e = record {
  network_id = id;
  network_name = id;
  scope = text "global";
  driver = [];
  endpoints = (e, e) ∷ [];
  network_engine = engine_data e;
}

abbrev pub summary_of : Text → Summary
summary_of id = record {
  summary_id = id;
  summary_names = (text "/") ∷ [];
  summary_state = [];
  summary_labels = [];
}

abbrev pub summaries : List Summary
summaries = summary_of (text "c1") ∷ summary_of (text "c2") ∷ []

abbrev pub volume_of : Text → Volume
volume_of name = record {
  volume_name = name;
  volume_driver = [];
  volume_engine = engine_data (text "e1");
}

abbrev pub inspection : Inspection
inspection = record {
  raw_config = some (config_with [] []);
  raw_info = record {
    info_name = text "/web";
    has_config = true;
    info_state = some (record {
      running = true;
      paused = false;
      restarting = false;
      dead = false;
      was_started = true;
    });
    info_networks = some [];
    info_host_config = some (config_with [] []).host_config;
    info_exposed_ports = [];
    network_ports = none;
  };
}

abbrev pub system_info : SystemInfo
system_info = record {
  system_id = text "e1";
  system_name = text "e1";
  ncpu = pos 4;
  mem_total = pos 1000;
  storage_driver = [];
  kernel_version = [];
  operating_system = [];
  system_labels = [];
  system_delta = none;
}

-- The world counts the calls; a volume is refused.
abbrev pub daemon : Daemon ℕ
daemon = record {
  clock = λ w. pos w;
  json = codec;
  less_than = λ a b. false;
  get_info = λ w. (ok system_info, suc w);
  server_version = λ w. (ok (text "1.0"), suc w);
  container_list = λ id w. (ok summaries, suc w);
  container_inspect = λ id w. (ok inspection, suc w);
  container_create = λ c name w. (ok (text "c1"), suc w);
  container_remove = λ id force volumes w. (ok tt, suc w);
  container_start = λ id w. (ok tt, suc w);
  container_rename = λ id name w. (ok tt, suc w);
  image_list = λ w. (ok [], suc w);
  image_pull = λ name w. (ok none, suc w);
  image_remove = λ name force w. (ok [], suc w);
  image_tag = λ q ref w. (ok tt, suc w);
  network_list = λ w. (ok [], suc w);
  network_inspect = λ id w. (ok (network_of id id), suc w);
  network_create = λ name w. (ok name, suc w);
  network_remove = λ id w. (ok tt, suc w);
  network_disconnect = λ id c force w. (ok tt, suc w);
  network_connect = λ id c w. (ok tt, suc w);
  volume_list = λ w. (ok [], suc w);
  volume_inspect = λ name w. (ok (volume_of name), suc w);
  volume_create = λ name w. (err refused, suc w);
  volume_remove = λ name w. (ok tt, suc w);
}

abbrev pub machine_in : EngineState → ℕ → Machine ℕ
machine_in state count = record { engine = engine_in state count; world = 0; events = [] }

health_indicator_bounds_example :
    (k : ℕ) × (health_indicator (engine_in healthy 1) ≡ pos k)
    × (k ≤ 100)
    × ((0 < k) ↔ ((healthy ≡ healthy) × (1 < 3)))
health_indicator_bounds_example =
    health_indicator_bounds (engine_in healthy 1) 1 3 refl refl (omega arith)

time_to_validate_regimes_example :
    (60 < 34
      → (time_to_validate (pos 31000000000) (engine_in pending 60) ≡ true)
        ↔ ((14400000000000 < 31000000000) ⊎ (2 ^ 60 * 1000000000 + 30000000000 < 31000000000)))
    × (55 ≤ 60
        → (time_to_validate (pos 31000000000) (engine_in pending 60) ≡ true)
          ↔ (30000000000 < 31000000000))
time_to_validate_regimes_example =
    time_to_validate_regimes (engine_in pending 60) 60 31000000000 refl refl

Step-Move_example : Move pending healthy []
unfolding validation_complete
Step-Move_example = Step-Move {e = engine_in pending 0} refl validated

abbrev failures : List (ℤ × ApiError)
failures = (pos 1, refused) ∷ (pos 2, refused) ∷ (pos 3, refused) ∷ []

fail_all_threshold_example :
    (3 < 3
      → ((fail_all failures (engine_in healthy 0)).0.engine_state ≡ healthy)
        × ((fail_all failures (engine_in healthy 0)).1 ≡ []))
    × (3 ≤ 3
        → ((fail_all failures (engine_in healthy 0)).0.engine_state ≡ unhealthy)
          × ((fail_all failures (engine_in healthy 0)).1
              ≡ emit (text "engine_disconnect") (engine_in healthy 0)))
unfolding is_connection_error
fail_all_threshold_example =
    fail_all_threshold failures (engine_in healthy 0) 3 (refl, (refl, (refl, tt))) refl refl refl
      (omega arith) (omega arith)

answered_recovers_example :
    ((answered (pos 9) (engine_in unhealthy 3)).0.engine_state ≡ healthy)
    × (health_indicator (answered (pos 9) (engine_in unhealthy 3)).0 ≡ pos 100)
    × ((answered (pos 9) (engine_in unhealthy 3)).1
        ≡ emit (text "engine_reconnect") (engine_in unhealthy 3))
answered_recovers_example =
    answered_recovers (pos 9) (engine_in unhealthy 3) 3 refl refl (omega arith)

cpus_of_shares-shares_of_cpus_example :
    cpus_of_shares (pos 3) (shares_of_cpus (pos 3) (pos 2)) ≡ pos 2
cpus_of_shares-shares_of_cpus_example =
    cpus_of_shares-shares_of_cpus 3 2 (omega arith) (omega arith) (omega arith)

-- Where the dividend is no float64, the quotient is rounded, and the number is not read back.
rounded_test : cpus_of_shares (pos 3) (shares_of_cpus (pos 3) (pos (2 ^ 52))) ≡ pos (2 ^ 52 - 1)
unfolding cpus_of_shares shares_of_cpus
rounded_test = refl

refresh_containers-keys_example :
    ((refresh_containers daemon true (machine_in healthy 0)).0 ≡ ok tt)
    × Distinct (keys (refresh_containers daemon true (machine_in healthy 0)).1.engine.containers)
    × ((id : Text)
        → is_key id (refresh_containers daemon true (machine_in healthy 0)).1.engine.containers
          ≡ any (λ (s : Summary). text_eq s.summary_id id) summaries)
unfolding text_eq config_of
refresh_containers-keys_example =
    refresh_containers-keys daemon (λ id w. (inspection, config_with [] [], refl, refl)) true
      (machine_in healthy 0) summaries refl ((refl, tt), (tt, tt))

abbrev messages : List Message
messages =
    record {
      kind = text "container";
      action = text "start";
      message_status = text "start";
      message_id = text "c1";
      actor_id = text "c1";
      message_from = [];
    }
    ∷ []

handle_all-IsSteady_example : IsSteady (handle_all daemon messages (machine_in healthy 1)).engine
handle_all-IsSteady_example =
    handle_all-IsSteady daemon messages (machine_in healthy 1) (refl, λ up. refl)
