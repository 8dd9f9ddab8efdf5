-- ===== src/Vici/Worker/Heartbeat.antt =====
-- The heartbeat of session-mgr/src/aipanel_vici/session_worker.py on every branch.
use aipanel.Base.{
  ℕ, ◌+◌, ◌≤◌, ◌<◌, ◌≡◌, refl, sym, ap, ◌∙◌, true, false, [], ◌∷◌, ◌++◌, Option, none, some, inl,
  inr, ◌⊎◌, ltb, if◌then◌else◌, if-false, if-true, arith,
}
use aipanel.Vici.Model.{CapturedSession}
use aipanel.Vici.Adapter.{HttpResult, heartbeat_request}
use aipanel.Vici.Worker.{
  Worker, Env, Attempt, mirror_to_redis, login_with_backoff, maybe_recover, count_failure, is_alive,
  heartbeat_with, heartbeat, request,
}

-- A worker without a session, such as one whose login has failed for good, is left as it is: no
-- request is sent and no login is tried.
heartbeat_no_session :
    (env : Env) (attempts : ℕ → Attempt) (reply : HttpResult) (w : Worker)
    → (w.captured ≡ none) ⊎ (w.http ≡ none)
    → heartbeat env attempts reply w ≡ w
unfolding heartbeat
heartbeat_no_session env attempts reply w h = go w.captured w.http h
  where
    go :
        (c h : Option CapturedSession)
        → (c ≡ none) ⊎ (h ≡ none)
        → heartbeat_with env attempts reply c h w ≡ w
    go none h e = unfold heartbeat_with in refl
    go (some c) none e = unfold heartbeat_with in refl
    go (some c) (some h) (inl e) = cc
    go (some c) (some h) (inr e) = cc

mirror_lem :
    (env : Env) (w : Worker)
    → let w' = mirror_to_redis env w in
      (w'.state ≡ w.state)
      × (w'.captured ≡ w.captured)
      × (w'.http ≡ w.http)
      × (w'.requests ≡ w.requests)
      × (w'.mirror ≡ (if env.redis_up then some w.state else w.mirror))
      × (w'.stopped ≡ w.stopped)
unfolding mirror_to_redis
mirror_lem env w = ground arith

heartbeat_session :
    (env : Env) (attempts : ℕ → Attempt) (reply : HttpResult) (w : Worker) (c h : CapturedSession)
    → w.captured ≡ some c
    → w.http ≡ some h
    → heartbeat env attempts reply w ≡ heartbeat_with env attempts reply (some c) (some h) w
unfolding heartbeat
heartbeat_session env attempts reply w c h p q =
    ap (λ x. heartbeat_with env attempts reply x w.http w) p
    ∙ ap (λ x. heartbeat_with env attempts reply (some c) x w) q

abbrev asked : CapturedSession → Worker → Worker
asked c w = request (heartbeat_request c w.deployment) w

abbrev beaten : Env → CapturedSession → Worker → Worker
beaten env c w = record (asked c w) {
  state = record w.state { heartbeat_failures = 0; last_heartbeat_at = some env.now };
}

module _ (env : Env) (attempts : ℕ → Attempt) (reply : HttpResult) (w : Worker)
    (c h : CapturedSession) (has : w.captured ≡ some c) (open_http : w.http ≡ some h) where
  heartbeat-alive :
      is_alive reply ≡ true → heartbeat env attempts reply w ≡ mirror_to_redis env (beaten env c w)
  unfolding heartbeat_with
  heartbeat-alive alive =
      heartbeat_session env attempts reply w c h has open_http ∙ if-true (is_alive reply) _ _ alive

  heartbeat-dead :
      is_alive reply ≡ false
      → heartbeat env attempts reply w ≡ maybe_recover env attempts (count_failure (asked c w))
  unfolding heartbeat_with
  heartbeat-dead dead =
      heartbeat_session env attempts reply w c h has open_http ∙ if-false (is_alive reply) _ _ dead

  -- A heartbeat with an answer that is alive, on a worker with a session: one request is sent, no
  -- failure counts any more, the time is noted, Redis has the new state if it is up, and the
  -- session and the rest of the state stay.
  pub heartbeat_alive :
      is_alive reply ≡ true
      → let w' = heartbeat env attempts reply w in
        (w'.state ≡ record w.state { heartbeat_failures = 0; last_heartbeat_at = some env.now })
        × (w'.captured ≡ w.captured)
        × (w'.http ≡ w.http)
        × (w'.requests ≡ w.requests ++ heartbeat_request c w.deployment ∷ [])
        × (w'.mirror ≡ (if env.redis_up then some w'.state else w.mirror))
  heartbeat_alive alive =
      let e = heartbeat-alive alive in
      let m = mirror_lem env (beaten env c w) in
      (
        ap (λ x. x.state) e ∙ m.0,
        ap (λ x. x.captured) e ∙ m.1,
        ap (λ x. x.http) e ∙ m.2,
        ap (λ x. x.requests) e ∙ m.3,
        ap (λ x. x.mirror) e
            ∙ m.4
            ∙ ap (λ s. if env.redis_up then some s else w.mirror) (sym (ap (λ x. x.state) e ∙ m.0)),
      )

  -- A failure that is not the third: only the counter moves.
  pub heartbeat_tolerated :
      is_alive reply ≡ false
      → w.state.heartbeat_failures < 2
      → heartbeat env attempts reply w ≡ count_failure (asked c w)
  unfolding maybe_recover
  heartbeat_tolerated dead few =
      heartbeat-dead dead ∙ if-true (ltb (w.state.heartbeat_failures + 1) 3) _ _ (ground arith)

  -- The third failure in a row, or a later one: the session is dropped and the login starts over.
  heartbeat_relogin :
      is_alive reply ≡ false
      → 2 ≤ w.state.heartbeat_failures
      → heartbeat env attempts reply w
        ≡ login_with_backoff env attempts
            (record (count_failure (asked c w)) { http = none; captured = none })
  unfolding maybe_recover
  heartbeat_relogin dead many =
      heartbeat-dead dead ∙ if-false (ltb (w.state.heartbeat_failures + 1) 3) _ _ (ground arith)

abbrev pub missed : CapturedSession → Worker → Worker
missed c w = count_failure (asked c w)

abbrev pub lose : Worker → Worker
lose w = record w { http = none; captured = none }

-- Three heartbeats in a row that are not alive, on a worker with a session and no failure counted:
-- the first two keep the session, and the third drops it and starts the login loop. Each of the
-- three sent its request.
pub heartbeat_three_misses :
    (env : Env) (attempts : ℕ → Attempt) (r1 r2 r3 : HttpResult) (w : Worker)
    (c h : CapturedSession)
    → w.captured ≡ some c
    → w.http ≡ some h
    → is_alive r1 ≡ false
    → is_alive r2 ≡ false
    → is_alive r3 ≡ false
    → w.state.heartbeat_failures ≡ 0
    → heartbeat env attempts r3 (heartbeat env attempts r2 (heartbeat env attempts r1 w))
      ≡ login_with_backoff env attempts (lose (missed c (missed c (missed c w))))
heartbeat_three_misses env attempts r1 r2 r3 w c h has open_http d1 d2 d3 fine =
    let first = heartbeat_tolerated env attempts r1 w c h has open_http d1 (ground arith) in
    let second =
      heartbeat_tolerated env attempts r2 (missed c w) c h has open_http d2 (ground arith) in
    let third =
      heartbeat_relogin env attempts r3 (missed c (missed c w)) c h has open_http d3
        (ground arith) in
    ap (λ x. heartbeat env attempts r3 (heartbeat env attempts r2 x)) first
    ∙ ap (heartbeat env attempts r3) second
    ∙ third
