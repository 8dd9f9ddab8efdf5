-- ===== src/Vici/Worker/Login.antt =====
-- The login loop of session-mgr/src/aipanel_vici/session_worker.py: how it ends, and after how many attempts.
use aipanel.Base.{
  ℕ, zero, suc, ◌+◌, ◌<◌, ◌≡◌, sym, ap, ◌∙◌, String, true, false, List, [], ◌∷◌, some, length,
  if-false, if-true, arith,
}
use aipanel.Vici.Model.{ready, error, CapturedSession}
use aipanel.Vici.Worker.{
  Worker, log_out, Env, Attempt, logged_in, login_failed, stop, adopt_captured, set_status,
  wait_delay, try_login, note_failure, after_login, login_rounds,
}

-- Nobody calls `stop` while the loop runs.
abbrev pub IsQuiet : (ℕ → Attempt) → ℕ → Type 0
IsQuiet attempts k = ((attempts k).stop_asleep ≡ false) × ((attempts k).stop_in_browser ≡ false)

abbrev count_attempt : Worker → Worker
count_attempt w = record w {
  state = record w.state { login_attempts = w.state.login_attempts + 1 };
}

tried_quiet :
    (delay : ℕ) (a : Attempt) (w : Worker)
    → a.stop_asleep ≡ false
    → a.stop_in_browser ≡ false
    → try_login a (wait_delay delay a w) ≡ count_attempt w
unfolding try_login wait_delay
tried_quiet delay a w asleep browser = ground arith

-- One round that fails, and one that succeeds.
login_rounds_next :
    (env : Env) (attempts : ℕ → Attempt) (d : ℕ) (ds : List ℕ) (k : ℕ) (w : Worker) (e : String)
    → w.stopped ≡ false
    → (attempts k).result ≡ login_failed e
    → login_rounds env attempts (d ∷ ds) k w
      ≡ login_rounds env attempts ds
          (suc k)
          (note_failure e (try_login (attempts k) (wait_delay d (attempts k) w)))
unfolding login_rounds after_login
login_rounds_next env attempts d ds k w e up r =
    if-false w.stopped _ _ up
    ∙ ap
        (λ result.
          after_login (attempts k).env result (login_rounds env attempts ds (suc k))
            (try_login (attempts k) (wait_delay d (attempts k) w)))
        r

login_rounds_adopt :
    (env : Env) (attempts : ℕ → Attempt) (d : ℕ) (ds : List ℕ) (k : ℕ) (w : Worker)
    (c : CapturedSession)
    → w.stopped ≡ false
    → (attempts k).result ≡ logged_in c
    → login_rounds env attempts (d ∷ ds) k w
      ≡ adopt_captured (attempts k).env c (try_login (attempts k) (wait_delay d (attempts k) w))
unfolding login_rounds after_login
login_rounds_adopt env attempts d ds k w c up r =
    if-false w.stopped _ _ up
    ∙ ap
        (λ result.
          after_login (attempts k).env result (login_rounds env attempts ds (suc k))
            (try_login (attempts k) (wait_delay d (attempts k) w)))
        r

login_rounds_quiet :
    (env : Env) (attempts : ℕ → Attempt) (d : ℕ) (ds : List ℕ) (k : ℕ) (w : Worker) (e : String)
    → w.stopped ≡ false
    → IsQuiet attempts k
    → (attempts k).result ≡ login_failed e
    → login_rounds env attempts (d ∷ ds) k w
      ≡ login_rounds env attempts ds (suc k) (note_failure e (count_attempt w))
login_rounds_quiet env attempts d ds k w e up quiet r =
    login_rounds_next env attempts d ds k w e up r
    ∙ ap (λ x. login_rounds env attempts ds (suc k) (note_failure e x))
        (tried_quiet d (attempts k) w quiet.0 quiet.1)

-- On a worker that is not stopped, with no session to be had and nobody stopping it: one attempt is
-- made for each delay, the session stays as it was, and the status says ERROR.
pub login_rounds_fail :
    (env : Env) (attempts : ℕ → Attempt) (delays : List ℕ) (k : ℕ) (w : Worker)
    → w.stopped ≡ false
    → ((i : ℕ) → IsQuiet attempts i)
    → ((i : ℕ) → (e : String) × ((attempts i).result ≡ login_failed e))
    → let w' = login_rounds env attempts delays k w in
      (w'.state.status ≡ error)
      × (w'.state.login_attempts ≡ w.state.login_attempts + length delays)
      × (w'.captured ≡ w.captured)
      × (w'.http ≡ w.http)
unfolding login_rounds set_status
login_rounds_fail env attempts [] k w up quiet bad = ground arith
login_rounds_fail env attempts (d ∷ ds) k w up quiet bad =
    let failed = bad k in
    let once = note_failure failed.0 (count_attempt w) in
    let next = login_rounds_quiet env attempts d ds k w failed.0 up (quiet k) failed.1 in
    let rest = login_rounds_fail env attempts ds (suc k) once up quiet bad in
    (
      ap (λ x. x.state.status) next ∙ rest.0,
      omega (arith, ap (λ x. x.state.login_attempts) next, rest.1),
      ap (λ x. x.captured) next ∙ rest.2,
      ap (λ x. x.http) next ∙ rest.3,
    )

pub adopt_lem :
    (env : Env) (c : CapturedSession) (w : Worker)
    → let w' = adopt_captured env c w in
      (w'.stopped ≡ w.stopped)
      × (w'.state.status ≡ ready)
      × (w'.captured ≡ some c)
      × (w'.http ≡ some c)
      × (w'.state.heartbeat_failures ≡ 0)
      × (w'.state.login_attempts ≡ w.state.login_attempts)
unfolding adopt_captured set_status
adopt_lem env c w = ground arith

stop-stopped : (env : Env) (w : Worker) → (stop env w).stopped ≡ true
unfolding stop log_out
stop-stopped env w = ground arith

stop_again : (env : Env) (w : Worker) → w.stopped ≡ true → stop env w ≡ w
unfolding stop
stop_again env w h = if-true w.stopped _ _ h

try_login-stopped :
    (a : Attempt) (w : Worker) → a.stop_in_browser ≡ true → (try_login a w).stopped ≡ true
unfolding try_login
try_login-stopped a w h =
    ap (λ (x : Worker). x.stopped) (if-true a.stop_in_browser _ _ h)
    ∙ stop-stopped a.env (count_attempt w)

-- On a worker that is not stopped, where `j` attempts fail, the next gets a session, there is a
-- delay for it, and nobody stops the worker: the session is the one that was captured, the status
-- says READY, no failure counts, and the attempts are counted.
login_rounds_succeed :
    (env : Env) (attempts : ℕ → Attempt) (delays : List ℕ) (j k : ℕ) (w : Worker)
    (c : CapturedSession)
    → j < length delays
    → w.stopped ≡ false
    → ((i : ℕ) → IsQuiet attempts i)
    → ((i : ℕ) → i < k + j → (e : String) × ((attempts i).result ≡ login_failed e))
    → (attempts (k + j)).result ≡ logged_in c
    → let w' = login_rounds env attempts delays k w in
      (w'.state.status ≡ ready)
      × (w'.state.login_attempts ≡ w.state.login_attempts + j + 1)
      × (w'.state.heartbeat_failures ≡ 0)
      × (w'.captured ≡ some c)
      × (w'.http ≡ some c)
login_rounds_succeed env attempts [] j k w c lt up quiet bad good = absurd (omega arith)
login_rounds_succeed env attempts (d ∷ ds) zero k w c lt up quiet bad good =
    let here : k + zero ≡ k = omega arith in
    let next : login_rounds env attempts (d ∷ ds) k w
        ≡ adopt_captured (attempts k).env c (count_attempt w) =
      login_rounds_adopt env attempts d ds k w c up
        (ap (λ i. (attempts i).result) (sym here) ∙ good)
      ∙ ap (adopt_captured (attempts k).env c)
          (tried_quiet d (attempts k) w (quiet k).0 (quiet k).1) in
    let adopted = adopt_lem (attempts k).env c (count_attempt w) in
    (
      ap (λ x. x.state.status) next ∙ adopted.1,
      omega (arith, ap (λ x. x.state.login_attempts) next, adopted.5),
      ap (λ x. x.state.heartbeat_failures) next ∙ adopted.4,
      ap (λ x. x.captured) next ∙ adopted.2,
      ap (λ x. x.http) next ∙ adopted.3,
    )
login_rounds_succeed env attempts (d ∷ ds) (suc j) k w c lt up quiet bad good =
    let failed = bad k (omega arith) in
    let once = note_failure failed.0 (count_attempt w) in
    let next = login_rounds_quiet env attempts d ds k w failed.0 up (quiet k) failed.1 in
    let there : suc k + j ≡ k + suc j = omega arith in
    let rest =
      login_rounds_succeed env attempts ds j (suc k) once c (omega arith) up quiet
        (λ i lt'. bad i (omega arith)) (ap (λ i. (attempts i).result) there ∙ good) in
    (
      ap (λ x. x.state.status) next ∙ rest.0,
      omega (arith, ap (λ x. x.state.login_attempts) next, rest.1),
      ap (λ x. x.state.heartbeat_failures) next ∙ rest.2,
      ap (λ x. x.captured) next ∙ rest.3,
      ap (λ x. x.http) next ∙ rest.4,
    )

-- On a worker that is not stopped, a login that ends well after `stop` was called, while the
-- browser was at work: the stopped worker holds a session again and says READY, and a further
-- `stop` does nothing.
login_after_stop :
    (env env' : Env) (attempts : ℕ → Attempt) (d : ℕ) (ds : List ℕ) (k : ℕ) (w : Worker)
    (c : CapturedSession)
    → w.stopped ≡ false
    → (attempts k).stop_in_browser ≡ true
    → (attempts k).result ≡ logged_in c
    → let w' = login_rounds env attempts (d ∷ ds) k w in
      (w'.stopped ≡ true) × (w'.state.status ≡ ready) × (w'.http ≡ some c) × (stop env' w' ≡ w')
login_after_stop env env' attempts d ds k w c up asks good =
    let tried = try_login (attempts k) (wait_delay d (attempts k) w) in
    let next = login_rounds_adopt env attempts d ds k w c up good in
    let adopted = adopt_lem (attempts k).env c tried in
    let still =
      ap (λ x. x.stopped) next
      ∙ adopted.0
      ∙ try_login-stopped (attempts k) (wait_delay d (attempts k) w) asks in
    (
      still,
      ap (λ x. x.state.status) next ∙ adopted.1,
      ap (λ x. x.http) next ∙ adopted.3,
      stop_again env' (login_rounds env attempts (d ∷ ds) k w) still,
    )
