-- ===== src/Vici/Worker.antt =====
-- session-mgr/src/aipanel_vici/session_worker.py. A method returns the worker that it leaves. What
-- ViciDial answers, what Playwright captures, and the calls of `stop` while a login waits are
-- arguments. `requests` records what was sent, the oldest first; `mirror` is the Redis hash of the
-- deployment, kept as the record that its fields spell out. Metrics and logging are left out.
pub mod Login
pub mod Resume
pub mod Heartbeat
pub mod Calls
pub mod Actions
pub mod Invariant
mod Tests
use aipanel.Base.{
  ℕ, zero, suc, ◌+◌, ◌≡◌, String, Text, Bool, true, false, ◌||◌, List, [], ◌∷◌, ◌++◌, Option, none,
  some, is_empty, nat_eq, ltb, ◌==◌, string_Key, if◌then◌else◌,
}
use aipanel.Vici.Model.{
  SessionStatus, logging_in, ready, paused, error, logged_out, DeploymentRow, CapturedSession,
  SessionState, new_state,
}
use aipanel.Vici.Adapter.{
  HttpRequestSpec, heartbeat_request, logout_request, is_response_session_expired, HttpResult, send,
}

pub record Worker : Type 0 where
  pub deployment : DeploymentRow
  pub login_backoff_sec : List ℕ
  pub state : SessionState
  pub captured : Option CapturedSession
  pub http : Option CapturedSession
  pub stopped : Bool
  pub requests : List HttpRequestSpec
  pub mirror : Option SessionState

-- The clock and the state of Redis while a method runs.
pub record Env : Type 0 where
  pub now : ℕ
  pub redis_up : Bool

abbrev pub default_backoff : List ℕ
default_backoff = 5 ∷ 30 ∷ 120 ∷ 600 ∷ []

-- `__init__`, where `kept` is what Redis holds for the deployment from a run before.
abbrev pub new_worker : DeploymentRow → List ℕ → ℕ → Option SessionState → Worker
new_worker d backoff now kept = record {
  deployment = d;
  login_backoff_sec = backoff;
  state = new_state d now;
  captured = none;
  http = none;
  stopped = false;
  requests = [];
  mirror = kept;
}

-- `_mirror_to_redis`, where RedisError is only logged.
pub mirror_to_redis : Env → Worker → Worker
mirror_to_redis env w = if env.redis_up then record w { mirror = some w.state } else w

pub set_status : Env → SessionStatus → Worker → Worker
unfolding mirror_to_redis
set_status env status w =
    mirror_to_redis env (record w { state = record w.state { status = status } })

abbrev pub request : HttpRequestSpec → Worker → Worker
request spec w = record w { requests = w.requests ++ spec ∷ [] }

-- What `stop` does first: the logout request, if there is a session, whose errors are dropped.
pub log_out : Option CapturedSession → Option CapturedSession → Worker → Worker
log_out (some c) (some h) w = record (request (logout_request c w.deployment) w) { http = none }
log_out _ _ w = w

pub forget_mirror : Env → Worker → Worker
forget_mirror env w = if env.redis_up then record w { mirror = none } else w

pub stop : Env → Worker → Worker
unfolding log_out forget_mirror set_status
stop env w =
    if w.stopped
    then w
    else forget_mirror env
        (set_status env logged_out (log_out w.captured w.http (record w { stopped = true })))

pub adopt_captured : Env → CapturedSession → Worker → Worker
unfolding set_status
adopt_captured env c w = set_status env ready (record w {
  captured = some c;
  http = some c;
  state = record w.state {
    cookies = c.cookies;
    conf_exten = c.conf_exten;
    session_id = c.session_id;
    session_name = c.session_name;
    user_agent = c.user_agent;
    last_heartbeat_at = some env.now;
    heartbeat_failures = 0;
    last_error = "";
  };
})

pub data LoginResult : Type 0 where
  logged_in : CapturedSession → LoginResult
  login_failed : String → LoginResult

-- One round of the backoff loop: whether somebody calls `stop` while it sleeps or while the browser
-- works, the clock and Redis at that time, and how the login ends.
pub record Attempt : Type 0 where
  pub env : Env
  pub stop_asleep : Bool
  pub stop_in_browser : Bool
  pub result : LoginResult

abbrev pub interrupt : Env → Bool → Worker → Worker
interrupt env stops w = if stops then stop env w else w

-- The sleep before an attempt, if it has a delay.
pub wait_delay : ℕ → Attempt → Worker → Worker
unfolding stop
wait_delay delay a w = if nat_eq delay 0 then w else interrupt a.env a.stop_asleep w

pub try_login : Attempt → Worker → Worker
unfolding stop
try_login a w =
    interrupt a.env a.stop_in_browser
      (record w { state = record w.state { login_attempts = w.state.login_attempts + 1 } })

abbrev pub note_failure : String → Worker → Worker
note_failure e w = record w { state = record w.state { last_error = e } }

-- How a round ends: the session is adopted, or the loop goes on.
pub after_login : Env → LoginResult → (Worker → Worker) → Worker → Worker
after_login env (logged_in c) retry w = adopt_captured env c w
after_login env (login_failed e) retry w = retry (note_failure e w)

-- The loop over `(0, *login_backoff_sec)`; `attempts k` is what happens in round k.
pub login_rounds : Env → (ℕ → Attempt) → List ℕ → ℕ → Worker → Worker
login_rounds env attempts [] k w = set_status env error w
login_rounds env attempts (delay ∷ delays) k w =
    let a = attempts k in
    let done =
      after_login a.env a.result (login_rounds env attempts delays (suc k))
        (try_login a (wait_delay delay a w)) in
    if w.stopped then w else done

pub login_with_backoff : Env → (ℕ → Attempt) → Worker → Worker
login_with_backoff env attempts w = login_rounds env attempts (0 ∷ w.login_backoff_sec) 0 w

pub maybe_recover : Env → (ℕ → Attempt) → Worker → Worker
maybe_recover env attempts w =
    if ltb w.state.heartbeat_failures 3
    then w
    else login_with_backoff env attempts (record w { http = none; captured = none })

abbrev pub count_failure : Worker → Worker
count_failure w = record w {
  state = record w.state { heartbeat_failures = w.state.heartbeat_failures + 1 };
}

-- Whether the answer is alive; an exception is not.
unfoldable pub is_alive : HttpResult → Bool
is_alive r = elim (send r) [
  | none ↦ false
  | some (status_code, body) ↦ if is_response_session_expired body status_code then false else true
]

pub heartbeat_with :
    Env
    → (ℕ → Attempt)
    → HttpResult
    → Option CapturedSession
    → Option CapturedSession
    → Worker
    → Worker
heartbeat_with env attempts reply (some c) (some h) w =
    let asked = request (heartbeat_request c w.deployment) w in
    if is_alive reply
    then mirror_to_redis env (record asked {
      state = record asked.state { heartbeat_failures = 0; last_heartbeat_at = some env.now };
    })
    else maybe_recover env attempts (count_failure asked)
heartbeat_with env attempts reply _ _ w = w

pub heartbeat : Env → (ℕ → Attempt) → HttpResult → Worker → Worker
heartbeat env attempts reply w = heartbeat_with env attempts reply w.captured w.http w

-- What `_resume_from_redis` makes of the hash: nothing without cookies or an extension.
pub revive : Option SessionState → Option CapturedSession
revive none = none
revive (some prior) =
    if is_empty prior.cookies || prior.conf_exten == ""
    then none
    else some (record {
      cookies = prior.cookies;
      conf_exten = prior.conf_exten;
      session_id = prior.session_id;
      session_name = prior.session_name;
      user_agent = prior.user_agent;
    })

pub read_mirror : Env → Worker → Option SessionState
read_mirror env w = if env.redis_up then w.mirror else none

pub resume_with : Env → (ℕ → Attempt) → HttpResult → Option CapturedSession → Worker → Worker × Bool
resume_with env attempts reply none w = (w, false)
resume_with env attempts reply (some c) w =
    let beaten = heartbeat env attempts reply (adopt_captured env c w) in
    if ltb 0 beaten.state.heartbeat_failures
    then (record beaten { captured = none; http = none }, false)
    else (beaten, true)

pub resume_from_redis : Env → (ℕ → Attempt) → HttpResult → Worker → Worker × Bool
resume_from_redis env attempts reply w =
    resume_with env attempts reply (revive (read_mirror env w)) w

-- `start`, where `env` is the first write to Redis and `later` what follows.
pub start : Env → Env → (ℕ → Attempt) → HttpResult → Worker → Worker
start env later attempts reply w =
    let (resumed, done) = resume_from_redis later attempts reply (set_status env logging_in w) in
    if done then resumed else login_with_backoff later attempts resumed
