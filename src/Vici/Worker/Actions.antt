-- ===== src/Vici/Worker/Actions.antt =====
-- What the actions do, by what ViciDial answers and by what happens meanwhile.
use aipanel.Base.{ℕ, ◌+◌, ◌≡◌, String, Text, true, false, none, some, ◌⊎◌, if◌then◌else◌, arith}
use aipanel.Vici.Model.{paused, CapturedSession, DeploymentRow}
use aipanel.Vici.Adapter.{
  HttpRequestSpec, response, send, is_response_session_expired, pause_request,
}
use aipanel.Vici.Worker.{Worker, request, stop, set_status, log_out, mirror_to_redis, forget_mirror}
use aipanel.Vici.Worker.Calls.{
  session_expired, attribute_error, ok, raised, Outside, agent_action, pause,
}

abbrev count_99 : Worker → Worker
count_99 w = record w {
  state = record w.state { heartbeat_failures = w.state.heartbeat_failures + 99 };
}

module _ (o : Outside) (spec : CapturedSession → DeploymentRow → HttpRequestSpec) (w : Worker) where
  -- Without a session nothing is sent and nothing changes.
  agent_action_no_session :
      (w.captured ≡ none) ⊎ (w.http ≡ none) → agent_action o spec w ≡ (raised attribute_error, w)
  unfolding agent_action
  agent_action_no_session h = ground arith

  module _ (c h : CapturedSession) (status_code : ℕ) (body : Text) (has : w.captured ≡ some c)
      (open_http : w.http ≡ some h) (answers : o.reply ≡ response status_code body) where
    -- The request is sent, and the answer is alive: nothing else changes.
    agent_action_done :
        o.stops ≡ false
        → is_response_session_expired body status_code ≡ false
        → agent_action o spec w ≡ (ok tt, request (spec c w.deployment) w)
    unfolding agent_action send
    agent_action_done quiet alive = ground arith

    -- With a session, and `stop` not called meanwhile, the answer says that the session is gone:
    -- the action raises SessionExpired, and the failures are raised by 99, past the three at which
    -- a heartbeat that fails logs in anew.
    agent_action_expired :
        o.stops ≡ false
        → is_response_session_expired body status_code ≡ true
        → agent_action o spec w
          ≡ (raised session_expired, count_99 (request (spec c w.deployment) w))
    unfolding agent_action send
    agent_action_expired quiet gone = ground arith

    -- With a session, on a worker that is not stopped, `stop` comes while ViciDial answers: the
    -- action raises SessionExpired, whatever the answer is, and the worker is the one that `stop`
    -- leaves.
    agent_action_stopped :
        o.stops ≡ true
        → w.stopped ≡ false
        → agent_action o spec w
          ≡ (raised session_expired, stop o.env (request (spec c w.deployment) w))
    unfolding agent_action send stop log_out set_status mirror_to_redis forget_mirror
    agent_action_stopped stops up = ground arith

    -- With a session, and `stop` not called meanwhile, `pause` sends its request; the status
    -- becomes PAUSED only where the answer does not say that the session is gone, and otherwise the
    -- action raises and counts 99 failures.
    pause_lem :
        (pause_code : String)
        → o.stops ≡ false
        → pause o pause_code w ≡ (
            if is_response_session_expired body status_code
            then (
              raised session_expired,
              count_99 (request (pause_request c w.deployment pause_code) w),
            )
            else (
              ok tt,
              set_status o.env paused (request (pause_request c w.deployment pause_code) w),
            ))
    unfolding pause send
    pause_lem pause_code quiet = ground arith
