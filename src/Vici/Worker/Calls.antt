-- ===== src/Vici/Worker/Calls.antt =====
-- session-mgr/src/aipanel_vici/session_worker.py, the actions that the API calls. The lock keeps one
-- action from another; `stop` does not take it, so it may come while an action waits for ViciDial.
use aipanel.Base.{ℕ, ◌+◌, String, Text, codes, Bool, Option, none, some, is_empty, if◌then◌else◌}
use aipanel.Vici.Model.{ready, paused, CapturedSession, DeploymentRow, CallInfo, LeadData}
use aipanel.Vici.Adapter.{
  HttpRequestSpec, HttpResult, send, is_response_session_expired, get_call_info_request,
  get_lead_request, dispose_request, transfer_conference_request, pause_request, resume_request,
  hangup_request, manual_dial_request,
}
use aipanel.Vici.Adapter.Parse.{parse_call_info_response, parse_lead_response, or_empty}
use aipanel.Vici.Worker.{Worker, Env, request, interrupt, mirror_to_redis, set_status}

-- What an action raises: SessionExpired; AttributeError, where there is no session to read from or to
-- send through; whatever `send` lets through.
pub data Raised : Type 0 where
  session_expired attribute_error send_error : Raised

pub data Result {ℓ} (A : Type ℓ) : Type ℓ where
  ok : A → Result A
  raised : Raised → Result A

-- A method: the worker it leaves, and what it returns or raises.
abbrev M : Type 0 → Type 0
M A = Worker → Result A × Worker

-- What follows a call: it runs on what the call returns, and an exception passes it by.
abbrev continue_with : {A B : Type 0} → (A → M B) → Result A × Worker → Result B × Worker
continue_with next (ok a, w) = next a w
continue_with next (raised x, w) = (raised x, w)

infixl 5 ◌>>=◌ ◌>>◌
abbrev ◌>>=◌ : {A B : Type 0} → M A → (A → M B) → Worker → Result B × Worker
call >>= next = λ w. continue_with next (call w)

abbrev ◌>>◌ : {B : Type 0} → M (Unit {0}) → M B → Worker → Result B × Worker
call >> after = call >>= (λ _. after)

abbrev modify : (Worker → Worker) → M (Unit {0})
modify f w = (ok tt, f w)

abbrev from_option : {A : Type 0} → Option A → Raised → M A
from_option none x w = (raised x, w)
from_option (some a) x w = (ok a, w)

-- What happens around one request: ViciDial's answer, a call of `stop` while it is under way, the
-- clock and Redis.
pub record Outside : Type 0 where
  pub env : Env
  pub reply : HttpResult
  pub stops : Bool

-- The session that the request is built from.
the_session : M CapturedSession
the_session w = from_option w.captured attribute_error w

the_deployment : M DeploymentRow
the_deployment w = (ok w.deployment, w)

abbrev pure : {A : Type 0} → A → M A
pure a w = (ok a, w)

-- `info.uniqueid or self.state.last_call_id`; a field of the call is never an empty text.
abbrev first_of_two : Option Text → Option Text → Option Text
first_of_two none last = last
first_of_two (some t) last = some t

the_http : M CapturedSession
the_http w = from_option w.http attribute_error w

-- `await self._http.send(self.adapter, spec)`.
send_spec : Outside → HttpRequestSpec → M (ℕ × Text)
unfolding the_http
send_spec o spec = do
  h ← the_http
  modify (request spec)
  modify (interrupt o.env o.stops)
  from_option (send o.reply) send_error

expire : M (Unit {0})
expire w = (
  raised session_expired,
  record w { state = record w.state { heartbeat_failures = w.state.heartbeat_failures + 99 } },
)

-- `_raise_if_expired`.
raise_if_expired : ℕ × Text → M (Unit {0})
unfolding expire
raise_if_expired (status_code, body) w = elim w.http [
  | none ↦ (raised session_expired, w)
  | some h ↦ if is_response_session_expired body status_code then expire w else (ok tt, w)
]

-- An action that sends one request of the agent's session and has nothing to return.
unfoldable pub agent_action :
    Outside → (CapturedSession → DeploymentRow → HttpRequestSpec) → M (Unit {0})
unfolding the_session the_deployment send_spec raise_if_expired
agent_action o spec = do
  sess ← the_session
  d ← the_deployment
  answer ← send_spec o (spec sess d)
  raise_if_expired answer

unfoldable pub dispose : Outside → String → Option String → String → M (Unit {0})
unfolding agent_action
dispose o status callback_datetime notes =
    agent_action o (λ sess d. dispose_request sess d status callback_datetime notes)

unfoldable pub transfer_conference : Outside → String → String → M (Unit {0})
unfolding agent_action
transfer_conference o ingroup_id summary =
    agent_action o (λ sess d. transfer_conference_request sess d ingroup_id summary)

unfoldable pub hangup : Outside → M (Unit {0})
unfolding agent_action
hangup o = agent_action o hangup_request

unfoldable pub manual_dial : Outside → String → M (Unit {0})
unfolding agent_action
manual_dial o phone_number = agent_action o (λ sess d. manual_dial_request sess d phone_number)

unfoldable pub pause : Outside → String → M (Unit {0})
unfolding agent_action
pause o pause_code = do
  agent_action o (λ sess d. pause_request sess d pause_code)
  modify (set_status o.env paused)

unfoldable pub resume : Outside → M (Unit {0})
unfolding agent_action
resume o = do agent_action o resume_request; modify (set_status o.env ready)

-- A call with a lead: its id is kept for the session, if ViciDial gave one.
unfoldable pub note_call : Env → CallInfo → Worker → Worker
note_call env info w =
    if is_empty (or_empty info.lead_id)
    then w
    else mirror_to_redis env (record w {
      state = record w.state { last_call_id = first_of_two info.uniqueid w.state.last_call_id };
    })

unfoldable pub get_call_info : Outside → M CallInfo
unfolding the_session the_deployment send_spec raise_if_expired
get_call_info o = do
  sess ← the_session
  d ← the_deployment
  answer ← send_spec o (get_call_info_request sess d)
  raise_if_expired answer
  modify (note_call o.env (parse_call_info_response answer.1))
  pure (parse_call_info_response answer.1)

-- The answer is not tested for an expired session.
unfoldable pub get_lead : Outside → String → M LeadData
unfolding send_spec
get_lead o lead_id = do
  answer ← send_spec o (get_lead_request lead_id)
  pure (parse_lead_response answer.1 (codes lead_id))
