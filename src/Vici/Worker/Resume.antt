-- ===== src/Vici/Worker/Resume.antt =====
-- `start`, and the session that is kept in Redis.
use aipanel.Base.{
  ℕ, ◌+◌, ◌≡◌, ap, ◌∙◌, true, false, [], Option, none, some, ltb, if◌then◌else◌, if-false, if-true,
  arith,
}
use aipanel.Vici.Model.{CapturedSession, logging_in, ready}
use aipanel.Vici.Adapter.{HttpResult}
use aipanel.Vici.Worker.{
  Worker, Env, Attempt, set_status, adopt_captured, login_with_backoff, is_alive, revive,
  read_mirror, resume_with, resume_from_redis, start, mirror_to_redis,
}
use aipanel.Vici.Worker.Login.{adopt_lem}
use aipanel.Vici.Worker.Heartbeat.{heartbeat_alive, heartbeat_tolerated}

-- `start` first writes LOGGING_IN, with a state that holds no cookies yet, over what Redis kept.
-- So, whenever Redis takes that write, nothing is resumed, whatever it held and whatever ViciDial
-- would answer: the worker logs in anew.
pub start_never_resumes :
    (env later : Env) (attempts : ℕ → Attempt) (reply : HttpResult) (w : Worker)
    → w.state.cookies ≡ []
    → env.redis_up ≡ true
    → start env later attempts reply w
      ≡ login_with_backoff later attempts (set_status env logging_in w)
unfolding start resume_from_redis resume_with
start_never_resumes env later attempts reply w fresh up = ap (λ c. start_on c) nothing
  where
    written : Worker
    written = set_status env logging_in w

    start_on : Option CapturedSession → Worker
    start_on c =
        let (resumed, done) = resume_with later attempts reply c written in
        if done then resumed else login_with_backoff later attempts resumed

    nothing : revive (read_mirror later written) ≡ none
    nothing = unfold set_status mirror_to_redis read_mirror revive in ground arith

module _ (env : Env) (attempts : ℕ → Attempt) (reply : HttpResult) (w : Worker)
    (c : CapturedSession) (kept : revive (read_mirror env w) ≡ some c) where
  adopted : Worker
  adopted = adopt_captured env c w

  adopted_lem :
      (adopted.state.status ≡ ready)
      × (adopted.captured ≡ some c)
      × (adopted.http ≡ some c)
      × (adopted.state.heartbeat_failures ≡ 0)
      × (adopted.state.login_attempts ≡ w.state.login_attempts)
  unfolding adopted
  adopted_lem = let a = adopt_lem env c w in (a.1, a.2, a.3, a.4, a.5)

  resumed_lem : resume_from_redis env attempts reply w ≡ resume_with env attempts reply (some c) w
  unfolding resume_from_redis
  resumed_lem = ap (λ o. resume_with env attempts reply o w) kept

  -- Where Redis holds a session that can be revived, and ViciDial answers the heartbeat on it: it
  -- is taken over, the worker is READY, and no login is attempted.
  resume_alive :
      is_alive reply ≡ true
      → let r = resume_from_redis env attempts reply w in
        (r.1 ≡ true)
        × (r.0.captured ≡ some c)
        × (r.0.http ≡ some c)
        × (r.0.state.status ≡ ready)
        × (r.0.state.login_attempts ≡ w.state.login_attempts)
  unfolding resume_with adopted
  resume_alive alive =
      let a = adopted_lem in
      let beat = heartbeat_alive env attempts reply adopted c c a.1 a.2 alive in
      let fine = ap (λ s. ltb 0 s.heartbeat_failures) beat.0 in
      let whole = resumed_lem ∙ if-false _ _ _ fine in
      (
        ap (λ r. r.1) whole,
        ap (λ r. r.0.captured) whole ∙ beat.1 ∙ a.1,
        ap (λ r. r.0.http) whole ∙ beat.2 ∙ a.2,
        ap (λ r. r.0.state.status) whole ∙ ap (λ s. s.status) beat.0 ∙ a.0,
        ap (λ r. r.0.state.login_attempts) whole ∙ ap (λ s. s.login_attempts) beat.0 ∙ a.4,
      )

  -- Where Redis holds a session that can be revived, and the heartbeat on it is not alive: the
  -- session is dropped, and the status that is left says READY all the same.
  resume_stale :
      is_alive reply ≡ false
      → let r = resume_from_redis env attempts reply w in
        (r.1 ≡ false)
        × (r.0.captured ≡ none)
        × (r.0.http ≡ none)
        × (r.0.state.status ≡ ready)
        × (r.0.state.login_attempts ≡ w.state.login_attempts)
  unfolding resume_with adopted
  resume_stale dead =
      let a = adopted_lem in
      let beat =
        heartbeat_tolerated env attempts reply adopted c c a.1 a.2 dead (omega (arith, a.3)) in
      let bad = ap (λ x. ltb 0 x.state.heartbeat_failures) beat ∙ ap (λ n. ltb 0 (n + 1)) a.3 in
      let whole = resumed_lem ∙ if-true _ _ _ bad in
      (
        ap (λ r. r.1) whole,
        ap (λ r. r.0.captured) whole,
        ap (λ r. r.0.http) whole,
        ap (λ r. r.0.state.status) whole ∙ ap (λ x. x.state.status) beat ∙ a.0,
        ap (λ r. r.0.state.login_attempts) whole ∙ ap (λ x. x.state.login_attempts) beat ∙ a.4,
      )
