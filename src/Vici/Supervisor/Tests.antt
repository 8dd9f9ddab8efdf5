-- ===== src/Vici/Supervisor/Tests.antt =====
-- A supervisor in concrete situations.
use aipanel.Base.{nat_Key, ◌≡◌, refl, codes, [], ◌∷◌, none, some, true}
use aipanel.Vici.Model.{new_state}
use aipanel.Vici.Samples.{row_of, session}
use aipanel.Vici.Adapter.{response, send, is_response_session_expired}
use aipanel.Vici.Worker.{Worker, Env, new_worker, default_backoff, is_alive}
use aipanel.Vici.Supervisor.{Supervisor, Config, is_unhealthy, is_active, tick}
use aipanel.Vici.Supervisor.Keys.{has}
use aipanel.Vici.Supervisor.Tick.{has-tick}

abbrev env : Env
env = record { now = 500000; redis_up = true }

abbrev config : Config
config = record {
  login_backoff_sec = default_backoff;
  unhealthy_after_sec = 90000;
  env = env;
  kept = λ _. none;
}

abbrev seated : Worker
seated = record (new_worker (row_of 7) default_backoff 900 none) {
  captured = some session;
  http = some session;
  state = record (new_state (row_of 7) 900) { last_heartbeat_at = some 100000 };
}

abbrev one_worker : Supervisor
one_worker = record { workers = (7, seated) ∷ []; tasks = []; retired = [] }

has-tick_example : has 7 (tick config (row_of 8 ∷ []) one_worker) ≡ is_active 7 (row_of 8 ∷ [])
has-tick_example = has-tick config (row_of 8 ∷ []) one_worker 7

overdue : is_unhealthy config (some 100000) ≡ true
unfolding is_unhealthy
overdue = refl

alive : is_alive (response 200 (codes "OK8600099")) ≡ true
unfolding is_alive send is_response_session_expired
alive = refl
