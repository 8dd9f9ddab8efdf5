-- ===== src/Vici/Worker/Invariant.antt =====
-- The invariant of SessionWorker in session-mgr/src/aipanel_vici/session_worker.py.
use aipanel.Base.{
  ℕ, suc, ◌≡◌, refl, sym, ap, ◌∙◌, subst, Bool, true, false, Bool-cases, List, [], ◌∷◌, Option,
  none, some, inl, inr, ◌⊎◌, if◌then◌else◌, if-true, if-false, ltb, arith,
}
use aipanel.Vici.Model.{SessionStatus, logging_in, ready, on_call, paused, error, CapturedSession}
use aipanel.Vici.Adapter.{HttpResult}
use aipanel.Vici.Worker.{
  Worker, Env, Attempt, LoginResult, logged_in, login_failed, mirror_to_redis, set_status,
  adopt_captured, after_login, login_rounds, login_with_backoff, maybe_recover, is_alive,
  heartbeat_with, heartbeat, revive, read_mirror, resume_with, resume_from_redis, start, try_login,
  wait_delay, note_failure,
}
use aipanel.Vici.Worker.Login.{adopt_lem}

abbrev is_live : SessionStatus → Bool
is_live ready = true
is_live on_call = true
is_live paused = true
is_live _ = false

-- The session that is held is the one that requests go through.
abbrev HasSession : Worker → Type 0
HasSession w = (c : CapturedSession) × (w.captured ≡ some c) × (w.http ≡ some c)

abbrev pub IsValid : Worker → Type 0
IsValid w = (w.stopped ≡ true) ⊎ ((is_live w.state.status ≡ false) ⊎ HasSession w)

adopt-IsValid : (env : Env) (c : CapturedSession) (w : Worker) → IsValid (adopt_captured env c w)
adopt-IsValid env c w = inr (inr (c, (adopt_lem env c w).2, (adopt_lem env c w).3))

set_status_lem :
    (env : Env) (s : SessionStatus) (w : Worker)
    → let w' = set_status env s w in
      (w'.state.status ≡ s)
      × (w'.captured ≡ w.captured)
      × (w'.http ≡ w.http)
      × (w'.stopped ≡ w.stopped)
unfolding set_status
set_status_lem env s w = ground arith

status-IsValid :
    (env : Env) (s : SessionStatus) (w : Worker) → is_live s ≡ false → IsValid (set_status env s w)
status-IsValid env s w dead = inr (inl (ap is_live (set_status_lem env s w).0 ∙ dead))

stopped-IsValid : (w : Worker) → w.stopped ≡ true → IsValid w
stopped-IsValid w s = inl s

after_login-IsValid :
    (env : Env) (r : LoginResult) (retry : Worker → Worker) (w : Worker)
    → ((v : Worker) → IsValid (retry v))
    → IsValid (after_login env r retry w)
unfolding after_login
after_login-IsValid env (logged_in c) retry w ih = adopt-IsValid env c w
after_login-IsValid env (login_failed e) retry w ih = ih (note_failure e w)

-- However the login loop goes, and whoever stops it, it ends in a valid worker.
login_rounds-IsValid :
    (env : Env) (attempts : ℕ → Attempt) (ds : List ℕ) (k : ℕ) (w : Worker)
    → IsValid (login_rounds env attempts ds k w)
unfolding login_rounds
login_rounds-IsValid env attempts [] k w = status-IsValid env error w refl
login_rounds-IsValid env attempts (d ∷ ds) k w =
    let ih = login_rounds-IsValid env attempts ds (suc k) in
    elim (Bool-cases w.stopped) [
      | inl s ↦ subst IsValid (sym (if-true w.stopped _ _ s)) (stopped-IsValid w s)
      | inr up ↦ subst IsValid (sym (if-false w.stopped _ _ up)) (
          after_login-IsValid (attempts k).env (attempts k).result
            (login_rounds env attempts ds (suc k))
            (try_login (attempts k) (wait_delay d (attempts k) w)) ih)
    ]

login-IsValid :
    (env : Env) (attempts : ℕ → Attempt) (w : Worker) → IsValid (login_with_backoff env attempts w)
unfolding login_with_backoff
login-IsValid env attempts w = login_rounds-IsValid env attempts (0 ∷ w.login_backoff_sec) 0 w

mirror-IsValid : (env : Env) (w : Worker) → IsValid w → IsValid (mirror_to_redis env w)
unfolding mirror_to_redis
mirror-IsValid env w v = elim (Bool-cases env.redis_up) [
  | inl up ↦ subst IsValid (sym (if-true env.redis_up _ _ up)) v
  | inr down ↦ subst IsValid (sym (if-false env.redis_up _ _ down)) v
]

recover-IsValid :
    (env : Env) (attempts : ℕ → Attempt) (w : Worker)
    → IsValid w
    → IsValid (maybe_recover env attempts w)
unfolding maybe_recover
recover-IsValid env attempts w v = elim (Bool-cases (ltb w.state.heartbeat_failures 3)) [
  | inl few ↦ subst IsValid (sym (if-true _ _ _ few)) v
  | inr many ↦
      subst IsValid (sym (if-false _ _ _ many))
        (login-IsValid env attempts (record w { http = none; captured = none }))
]

heartbeat_with-IsValid :
    (env : Env) (attempts : ℕ → Attempt) (reply : HttpResult) (c h : Option CapturedSession)
    (w : Worker)
    → IsValid w
    → IsValid (heartbeat_with env attempts reply c h w)
unfolding heartbeat_with
heartbeat_with-IsValid env attempts reply none h w v = v
heartbeat_with-IsValid env attempts reply (some c) none w v = v
heartbeat_with-IsValid env attempts reply (some c) (some h) w v =
    elim (Bool-cases (is_alive reply)) [
      | inl alive ↦ subst IsValid (sym (if-true _ _ _ alive)) (mirror-IsValid env _ v)
      | inr dead ↦ subst IsValid (sym (if-false _ _ _ dead)) (recover-IsValid env attempts _ v)
    ]

-- A heartbeat keeps a worker stopped, or not live, or with a session through which its requests go,
-- also where it logs in anew.
heartbeat-IsValid :
    (env : Env) (attempts : ℕ → Attempt) (reply : HttpResult) (w : Worker)
    → IsValid w
    → IsValid (heartbeat env attempts reply w)
unfolding heartbeat
heartbeat-IsValid env attempts reply w v =
    heartbeat_with-IsValid env attempts reply w.captured w.http w v

choose-IsValid :
    (b : Bool) (x y : Worker) (login : Worker → Worker)
    → IsValid (login x)
    → IsValid y
    → let r : Worker × Bool = if b then (x, false) else (y, true) in
      IsValid (if r.1 then r.0 else login r.0)
choose-IsValid true x y login vx vy = vx
choose-IsValid false x y login vx vy = vy

-- From any worker, `start` ends in one that is stopped, or whose status is not live, or that holds a
-- session through which its requests go.
start-IsValid :
    (env later : Env) (attempts : ℕ → Attempt) (reply : HttpResult) (w : Worker)
    → IsValid (start env later attempts reply w)
unfolding start resume_from_redis
start-IsValid env later attempts reply w =
    go (revive (read_mirror later (set_status env logging_in w)))
  where
    beaten : CapturedSession → Worker
    beaten c = heartbeat later attempts reply (adopt_captured later c (set_status env logging_in w))

    go :
        (kept : Option CapturedSession)
        → let r = resume_with later attempts reply kept (set_status env logging_in w) in
          IsValid (if r.1 then r.0 else login_with_backoff later attempts r.0)
    go none = unfold resume_with in login-IsValid later attempts _
    go (some c) =
        unfold resume_with in
        choose-IsValid (ltb 0 (beaten c).state.heartbeat_failures)
          (record (beaten c) { captured = none; http = none }) (beaten c)
          (login_with_backoff later attempts) (login-IsValid later attempts _)
          (heartbeat-IsValid later attempts reply _ (adopt-IsValid later c _))
