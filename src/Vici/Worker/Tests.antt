-- ===== src/Vici/Worker/Tests.antt =====
-- A session worker in concrete situations.
use aipanel.Base.{
  ℕ, ◌≡◌, ◌<◌, refl, String, codes, [], ◌∷◌, none, some, true, false, arith, ltb, if◌then◌else◌,
}
use aipanel.Vici.Model.{DeploymentRow, SessionState, ready, error, logging_in, new_state}
use aipanel.Vici.Samples.{row_of, session}
use aipanel.Vici.Adapter.{response, timeout, send, is_response_session_expired}
use aipanel.Vici.Worker.{
  Worker, Env, Attempt, logged_in, login_failed, new_worker, default_backoff, login_rounds,
  login_with_backoff, start, set_status, heartbeat, is_alive, revive, read_mirror,
}
use aipanel.Vici.Worker.Login.{login_rounds_fail}
use aipanel.Vici.Worker.Resume.{start_never_resumes}
use aipanel.Vici.Worker.Heartbeat.{heartbeat_three_misses, lose, missed}

abbrev row : DeploymentRow
row = row_of 7

abbrev up : Env
up = record { now = 1000; redis_up = true }

abbrev failing : ℕ → Attempt
failing k = record {
  env = up;
  stop_asleep = false;
  stop_in_browser = false;
  result = login_failed "no page";
}

-- The third attempt gets a session.
abbrev third : ℕ → Attempt
third k = record {
  env = up;
  stop_asleep = false;
  stop_in_browser = false;
  result = if ltb k 2 then login_failed "no page" else logged_in session;
}

abbrev kept : SessionState
kept = record (new_state row 500) {
  cookies = ("PHPSESSID", "abc") ∷ [];
  conf_exten = "8600099";
  session_id = "T";
  session_name = "n";
  user_agent = "ua";
}

abbrev fresh : Worker
fresh = new_worker row default_backoff 900 (some kept)

abbrev seated : Worker
seated = record fresh {
  captured = some session;
  http = some session;
  state = record fresh.state { status = ready };
}

alive : is_alive (response 200 (codes "OK8600099")) ≡ true
unfolding is_alive send is_response_session_expired
alive = refl

timed_out : is_alive timeout ≡ false
unfolding is_alive send is_response_session_expired
timed_out = refl

login_rounds_fail_example :
    let w' = login_rounds up failing (0 ∷ 5 ∷ 30 ∷ 120 ∷ 600 ∷ []) 0 fresh in
    (w'.state.status ≡ error)
    × (w'.state.login_attempts ≡ 5)
    × (w'.captured ≡ none)
    × (w'.http ≡ none)
login_rounds_fail_example =
    login_rounds_fail up failing (0 ∷ 5 ∷ 30 ∷ 120 ∷ 600 ∷ []) 0 fresh refl (λ i. (refl, refl))
      (λ i. ("no page", refl))

third_failed : (i : ℕ) → i < 2 → (e : String) × ((third i).result ≡ login_failed e)
third_failed i lt = ("no page", ground arith)

start_never_resumes_example :
    start up up failing (response 200 (codes "OK8600099")) fresh
    ≡ login_with_backoff up failing (set_status up logging_in fresh)
start_never_resumes_example =
    start_never_resumes up up failing (response 200 (codes "OK8600099")) fresh refl refl

revived : revive (read_mirror up fresh) ≡ some session
unfolding revive read_mirror
revived = refl

ok_page : is_response_session_expired (codes "OK") 200 ≡ false
unfolding is_response_session_expired
ok_page = refl

off_page : is_response_session_expired (codes "NOT LOGGED-IN") 200 ≡ true
unfolding is_response_session_expired
off_page = refl

heartbeat_three_misses_example :
    heartbeat up failing timeout
      (heartbeat up failing timeout (heartbeat up failing timeout seated))
    ≡ login_with_backoff up failing (lose (missed session (missed session (missed session seated))))
heartbeat_three_misses_example =
    heartbeat_three_misses up failing timeout timeout timeout seated session session refl refl
      timed_out timed_out timed_out refl
