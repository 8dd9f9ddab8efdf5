-- ===== src/Vici/Supervisor.antt =====
-- session-mgr/src/aipanel_vici/session_supervisor.py: the poll of the deployments, and
-- heartbeat.py: which workers have a heartbeat task. `tasks` records what the supervisor schedules
-- and does not wait for, `retired` the workers that it stopped and let go, the oldest first.
pub mod Keys
pub mod Tick
pub mod Beats
mod Tests
use aipanel.Base.{
  ℕ, zero, ◌+◌, ◌-◌, ◌≡◌, String, Bool, true, false, not, ◌&&◌, ◌||◌, List, [], ◌∷◌, ◌++◌, Option,
  none, some, map, ltb, nat_eq, nat_Key, if◌then◌else◌,
}
use aipanel.Base.Dict
use aipanel.Base.Dict.{Dict}
use aipanel.Vici.Model.{DeploymentRow, SessionState}
use aipanel.Vici.Worker.{Worker, Env, new_worker}
use aipanel.Vici.Worker

pub data Task : Type 0 where
  login beat : ℕ → Task

pub record Supervisor : Type 0 where
  pub workers : Dict ℕ Worker
  pub tasks : List Task
  pub retired : List Worker

-- The settings, and what a tick meets outside: the clock and Redis, and what Redis keeps for a
-- deployment.
pub record Config : Type 0 where
  pub login_backoff_sec : List ℕ
  pub unhealthy_after_sec : ℕ
  pub env : Env
  pub kept : ℕ → Option SessionState

-- A row as the database holds it, with the passwords encrypted. `decrypt` is Fernet's, with none for
-- InvalidToken and the like.
module _ (decrypt : String → Option String) where
  decrypt_row : DeploymentRow → Option DeploymentRow
  decrypt_row r = elim (decrypt r.vici_pass) [
    | none ↦ none
    | some vp ↦ elim (decrypt r.phone_pass) [
      | none ↦ none
      | some pp ↦ some (record r { vici_pass = vp; phone_pass = pp })
    ]
  ]

  -- The rows that can be decrypted.
  decrypt_rows : List DeploymentRow → List DeploymentRow
  unfolding decrypt_row
  decrypt_rows [] = []
  decrypt_rows (r ∷ rows) =
      let rest = decrypt_rows rows in elim (decrypt_row r) [ none ↦ rest | some d ↦ d ∷ rest ]

  -- `_sync_fetch_deployments`, where none is an error of the database.
  pub fetch_deployments : Option (List DeploymentRow) → List DeploymentRow
  unfolding decrypt_rows
  fetch_deployments none = []
  fetch_deployments (some rows) = decrypt_rows rows

-- `_start_worker`: the worker stands in the table at once, its login is only scheduled.
pub start_worker : Config → DeploymentRow → Supervisor → Supervisor
start_worker cfg d s = record s {
  workers =
      Dict.put d.deployment_id
        (new_worker d cfg.login_backoff_sec cfg.env.now (cfg.kept d.deployment_id)) s.workers;
  tasks = s.tasks ++ login d.deployment_id ∷ [];
}

-- Whether a worker's last heartbeat is too old. In milliseconds, as the times are.
pub is_unhealthy : Config → Option ℕ → Bool
is_unhealthy cfg none = false
is_unhealthy cfg (some last) =
    if ltb (cfg.env.now - last) (cfg.unhealthy_after_sec) then false else true

abbrev pub bump_failures : Worker → Worker
bump_failures w = record w { state = record w.state { heartbeat_failures = 99 } }

-- `_maybe_recover_unhealthy`.
pub maybe_recover_unhealthy : Config → ℕ → Worker → Supervisor → Supervisor
unfolding is_unhealthy
maybe_recover_unhealthy cfg did w s =
    if is_unhealthy cfg w.state.last_heartbeat_at
    then record s {
      workers = Dict.put did (bump_failures w) s.workers;
      tasks = s.tasks ++ beat did ∷ [];
    }
    else s

pub refresh_row : Config → DeploymentRow → Supervisor → Supervisor
refresh_row cfg d s = elim (Dict.get d.deployment_id s.workers) [
  | none ↦ start_worker cfg d s
  | some w ↦ maybe_recover_unhealthy cfg d.deployment_id w s
]

pub refresh_rows : Config → List DeploymentRow → Supervisor → Supervisor
refresh_rows cfg [] s = s
refresh_rows cfg (d ∷ rows) s = refresh_rows cfg rows (refresh_row cfg d s)

-- `_stop_worker`.
pub stop_worker : Env → ℕ → Supervisor → Supervisor
stop_worker env did s = elim (Dict.get did s.workers) [
  | none ↦ s
  | some w ↦ record s {
    workers = Dict.remove did s.workers;
    retired = s.retired ++ Worker.stop env w ∷ [];
  }
]

abbrev pub is_active : ℕ → List DeploymentRow → Bool
is_active did [] = false
is_active did (d ∷ rows) = nat_eq d.deployment_id did || is_active did rows

pub stop_absent : Env → List DeploymentRow → List ℕ → Supervisor → Supervisor
stop_absent env rows [] s = s
stop_absent env rows (did ∷ keys) s =
    stop_absent env rows keys (if is_active did rows then s else stop_worker env did s)

abbrev pub keys : Dict ℕ Worker → List ℕ
keys = map (λ entry. entry.0)

-- `_tick`, on the rows that were fetched.
pub tick : Config → List DeploymentRow → Supervisor → Supervisor
tick cfg rows s =
    let refreshed = refresh_rows cfg rows s in
    stop_absent cfg.env rows (keys refreshed.workers) refreshed

-- `stop_all`.
unfoldable stop_all : Env → Supervisor → Supervisor
stop_all env s = record s {
  workers = [];
  retired = s.retired ++ map (λ entry. Worker.stop env entry.1) s.workers;
}
