-- ===== src/Vici/Supervisor/Tick.antt =====
-- What a tick of session-mgr/src/aipanel_vici/session_supervisor.py does.
use aipanel.Base.{
  ℕ, ◌≡◌, ap, ◌∙◌, String, true, false, List, [], ◌∷◌, ◌++◌, Option, none, some, nat_Key, if-true,
  arith,
}
use aipanel.Base.Dict
use aipanel.Base.Dict.{get-put_self}
use aipanel.Vici.Model.{DeploymentRow, CapturedSession}
use aipanel.Vici.Adapter.{HttpResult}
use aipanel.Vici.Worker.{Worker, Env, Attempt, heartbeat, is_alive}
use aipanel.Vici.Worker.Heartbeat.{heartbeat_alive}
use aipanel.Vici.Supervisor.{
  Supervisor, Config, beat, fetch_deployments, is_unhealthy, bump_failures, maybe_recover_unhealthy,
  refresh_rows, is_active, keys, tick,
}
use aipanel.Vici.Supervisor.Keys.{has, has-refresh_rows, has-stop_absent, is_among-keys}

-- After a tick exactly the deployments that the fetched rows list have a worker.
pub has-tick :
    (cfg : Config) (rows : List DeploymentRow) (s : Supervisor) (did : ℕ)
    → has did (tick cfg rows s) ≡ is_active did rows
unfolding tick
has-tick cfg rows s did =
    let refreshed = refresh_rows cfg rows s in
    let before = has-refresh_rows cfg rows s did in
    let after = has-stop_absent cfg.env rows (keys refreshed.workers) refreshed did in
    ground (arith, before, after, is_among-keys did refreshed.workers)

-- A tick that meets an error of the database leaves no deployment with a worker.
tick_database_error :
    (decrypt : String → Option String) (cfg : Config) (s : Supervisor) (did : ℕ)
    → has did (tick cfg (fetch_deployments decrypt none) s) ≡ false
unfolding fetch_deployments
tick_database_error decrypt cfg s did = has-tick cfg [] s did

-- A worker with a session, whose last heartbeat is old enough, is scheduled for another and marked
-- with 99 failures. But where ViciDial answers that heartbeat, the worker is not logged in anew:
-- its session stays and the mark is gone.
forced_relogin_is_not :
    (cfg : Config) (did : ℕ) (w : Worker) (s : Supervisor) (env : Env) (attempts : ℕ → Attempt)
    (reply : HttpResult) {c h : CapturedSession}
    → is_unhealthy cfg w.state.last_heartbeat_at ≡ true
    → w.captured ≡ some c
    → w.http ≡ some h
    → is_alive reply ≡ true
    → let s' = maybe_recover_unhealthy cfg did w s in
      (s'.tasks ≡ s.tasks ++ beat did ∷ [])
      × (Dict.get did s'.workers ≡ some (bump_failures w))
      × (let w' = heartbeat env attempts reply (bump_failures w) in
          (w'.captured ≡ w.captured)
          × (w'.http ≡ w.http)
          × (w'.state.heartbeat_failures ≡ 0)
          × (w'.state.login_attempts ≡ w.state.login_attempts))
unfolding maybe_recover_unhealthy
forced_relogin_is_not cfg did w s env attempts reply {c} {h} old has_session open_http alive =
    let marked = if-true {A = Supervisor} _ _ _ old in
    let kept =
      heartbeat_alive env attempts reply (bump_failures w) c h has_session open_http alive in
    (
      ap (λ x. x.tasks) marked,
      ap (λ x. Dict.get did x.workers) marked ∙ get-put_self did (bump_failures w) s.workers,
      (kept.1, kept.2, ap (λ x. x.heartbeat_failures) kept.0, ap (λ x. x.login_attempts) kept.0),
    )
