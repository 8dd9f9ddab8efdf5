-- ===== src/Vici/Supervisor/Keys.antt =====
-- Which deployments have a worker, along a tick.
use aipanel.Base.{
  is_some, ℕ, ◌≡◌, ap, ◌∙◌, Bool, true, false, not, ◌&&◌, ◌||◌, List, [], ◌∷◌, inl, inr,
  Option-cases, Bool-cases, nat_eq, nat_eq_iff, nat_Key, if◌then◌else◌, arith,
}
use aipanel.Base.Dict
use aipanel.Base.Dict.{Dict, get-put, get-remove}
use aipanel.Vici.Model.{DeploymentRow}
use aipanel.Vici.Worker.{Worker, Env, new_worker}
use aipanel.Vici.Supervisor.{
  Supervisor, bump_failures, Config, start_worker, maybe_recover_unhealthy, refresh_row,
  refresh_rows, stop_worker, is_active, stop_absent, keys,
}

-- `did in self.workers`.
abbrev pub has : ℕ → Supervisor → Bool
has did s = is_some (Dict.get did s.workers)

has-refresh_row :
    (cfg : Config) (d : DeploymentRow) (s : Supervisor) (did : ℕ)
    → has did (refresh_row cfg d s) ≡ (has did s || nat_eq d.deployment_id did)
unfolding refresh_row start_worker maybe_recover_unhealthy
has-refresh_row cfg d s did = elim (Option-cases (Dict.get d.deployment_id s.workers)) [
  | inl e ↦ ground (
    arith,
    e,
    get-put d.deployment_id did
        (new_worker d cfg.login_backoff_sec cfg.env.now (cfg.kept d.deployment_id)) s.workers,
    nat_eq_iff d.deployment_id did,
  )
  | inr (w, e) ↦ ground (
    arith,
    e,
    get-put d.deployment_id did (bump_failures w) s.workers,
    nat_eq_iff d.deployment_id did,
  )
]

pub has-refresh_rows :
    (cfg : Config) (rows : List DeploymentRow) (s : Supervisor) (did : ℕ)
    → has did (refresh_rows cfg rows s) ≡ (has did s || is_active did rows)
unfolding refresh_rows
has-refresh_rows cfg [] s did = ground arith
has-refresh_rows cfg (d ∷ rows) s did =
    ground (arith, has-refresh_rows cfg rows (refresh_row cfg d s) did, has-refresh_row cfg d s did)

has-stop_worker :
    (env : Env) (k : ℕ) (s : Supervisor) (did : ℕ)
    → has did (stop_worker env k s) ≡ (has did s && not (nat_eq k did))
unfolding stop_worker
has-stop_worker env k s did = ground (arith, get-remove k did s.workers, nat_eq_iff k did)

abbrev pub is_among : ℕ → List ℕ → Bool
is_among did [] = false
is_among did (k ∷ ks) = nat_eq k did || is_among did ks

kept_active :
    (k did : ℕ) (ks : List ℕ) (rows : List DeploymentRow) (b : Bool)
    → is_active k rows ≡ true
    → (b && not (is_among did ks && not (is_active did rows)))
      ≡ (b && not (is_among did (k ∷ ks) && not (is_active did rows)))
kept_active k did ks rows b h = ground (arith, nat_eq_iff k did)

gone_absent :
    (k did : ℕ) (ks : List ℕ) (rows : List DeploymentRow) (b : Bool)
    → is_active k rows ≡ false
    → ((b && not (nat_eq k did)) && not (is_among did ks && not (is_active did rows)))
      ≡ (b && not (is_among did (k ∷ ks) && not (is_active did rows)))
gone_absent k did ks rows b h = ground (arith, nat_eq_iff k did)

pub has-stop_absent :
    (env : Env) (rows : List DeploymentRow) (ks : List ℕ) (s : Supervisor) (did : ℕ)
    → has did (stop_absent env rows ks s)
      ≡ (has did s && not (is_among did ks && not (is_active did rows)))
unfolding stop_absent
has-stop_absent env rows [] s did = ground arith
has-stop_absent env rows (k ∷ ks) s did = elim (Bool-cases (is_active k rows)) [
  | inl active ↦
      let ih = has-stop_absent env rows ks s did in
      let same =
        ap (λ b. has did (stop_absent env rows ks (if b then s else stop_worker env k s))) active in
      same ∙ ih ∙ kept_active k did ks rows (has did s) active
  | inr absent ↦
      let ih = has-stop_absent env rows ks (stop_worker env k s) did in
      let same =
        ap (λ b. has did (stop_absent env rows ks (if b then s else stop_worker env k s))) absent in
      same
      ∙ ih
      ∙ ap (λ b. b && not (is_among did ks && not (is_active did rows)))
          (has-stop_worker env k s did)
      ∙ gone_absent k did ks rows (has did s) absent
]

-- A worker in the table is among its keys.
pub is_among-keys :
    (did : ℕ) (d : Dict ℕ Worker) → is_some (Dict.get did d) ≡ true → is_among did (keys d) ≡ true
unfolding Dict.get
is_among-keys did [] h = cc
is_among-keys did ((k, w) ∷ d) h = ground (arith, is_among-keys did d)
