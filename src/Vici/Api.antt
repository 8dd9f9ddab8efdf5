-- ===== src/Vici/Api.antt =====
-- session-mgr/src/aipanel_vici/api.py: the routes over the supervisor's table of workers, the canonical ones
-- and those for the call worker's client. A deployment id is a number, also where it is text, and an empty
-- or missing one is none. Metrics are left out, and the time in `last_heartbeat_at`.
pub mod Isolation
pub mod Compat
mod Tests
use aipanel.Base.{
  ℕ, zero, suc, ◌+◌, ◌≡◌, String, Text, codes, Bool, true, false, not, ◌&&◌, ◌||◌, List, [], ◌∷◌,
  Option, none, some, is_empty, is_some, length, leb, ltb, if◌then◌else◌, ◌==◌, string_Key, nat_Key,
  ◌++◌,
}
use aipanel.Base.Dict
use aipanel.Base.Texts.{strip}
use aipanel.Vici.Model.{SessionStatus, SessionState, CallInfo, LeadData}
use aipanel.Vici.Worker.{Worker}
use aipanel.Vici.Worker
use aipanel.Vici.Worker.Calls.{
  Raised, session_expired, attribute_error, send_error, Result, ok, raised, Outside, dispose,
  transfer_conference, hangup, manual_dial, pause, resume, get_call_info, get_lead,
}
use aipanel.Vici.Supervisor.{Supervisor}

-- What a route answers.
pub data Reply : Type 0 where
  done queued already_running : Reply
  dialed : String → Reply
  health_reply : ℕ → Reply
  status_reply : SessionState → Reply
  call_info_reply : CallInfo → Reply
  lead_reply : LeadData → Reply
  named_lead : Text → LeadData → Reply
  http_error : ℕ → Reply

pub record DisposeBody : Type 0 where
  pub status : String
  pub callback_datetime : Option String
  pub notes : String

pub record TransferBody : Type 0 where
  pub ingroup_id : String
  pub summary : String

-- The keys that the compat routes read, of a body that is any object.
pub record CompatBody : Type 0 where
  pub call_id : Option String
  pub deployment_id : Option ℕ
  pub dispo_code : Option String
  pub ingroup_id : Option String
  pub summary : Option String
  pub reason : Option String
  pub when : Option String
  pub notes : Option String

pub data Request : Type 0 where
  health : Request
  get_status call_info resume_call hangup_call start_dep stop_dep : ℕ → Request
  lead : ℕ → String → Request
  dispose_call : ℕ → DisposeBody → Request
  transfer : ℕ → TransferBody → Request
  pause_call manual_dial_call : ℕ → String → Request
  compat_lead : Option ℕ → String → Request
  compat_dispo compat_transfer compat_dnc compat_cb : CompatBody → Request

abbrev pub size : String → ℕ
size s = length (codes s)

-- `Field(min_length=…, max_length=…)`.
abbrev pub is_between : ℕ → ℕ → String → Bool
is_between least most s = leb least (size s) && leb (size s) most

abbrev pub get_or : String → Option String → String
get_or default none = default
get_or default (some s) = s

-- The exceptions that a canonical route maps: SessionExpired to 503, and everything else is an error of the server.
abbrev pub canonical_error : Raised → ℕ
canonical_error session_expired = 503
canonical_error attribute_error = 500
canonical_error send_error = 500

-- A compat route maps none.
abbrev pub compat_error : Raised → ℕ
compat_error x = 500

abbrev pub reply_of {ℓ} : {A : Type ℓ} → (Raised → ℕ) → (A → Reply) → Result A → Reply
reply_of error good (ok a) = good a
reply_of error good (raised x) = http_error (error x)

abbrev pub answer {ℓ} :
    {A : Type ℓ} → (Raised → ℕ) → (A → Reply) → Result A × Worker → Reply × Worker
answer error good (r, w) = (reply_of error good r, w)

-- `_worker_or_404`, and what the route does with the worker.
abbrev pub on_found :
    ℕ → (Worker → Reply × Worker) → Option Worker → Supervisor → Reply × Supervisor
on_found id act none s = (http_error 404, s)
on_found id act (some w) s = ((act w).0, record s { workers = Dict.put id (act w).1 s.workers })

pub on_worker : ℕ → (Worker → Reply × Worker) → Supervisor → Reply × Supervisor
on_worker id act s = on_found id act (Dict.get id s.workers) s

abbrev pub validated : Bool → Reply × Supervisor → Supervisor → Reply × Supervisor
validated fits result s = if fits then result else (http_error 422, s)

-- `(first_name + " " + last_name).strip() or "the customer"`.
unfoldable full_name : LeadData → Text
full_name l =
    let name = strip (l.first_name ++ (codes " " ++ l.last_name)) in
    if is_empty name then codes "the customer" else name

abbrev pub started : Option Worker → Reply
started none = queued
started (some w) = already_running

-- `_worker_for_call`; `resolve` is the deployment of a call in the database, with none also for an
-- error of it.
abbrev pub resolved : Option ℕ → (Worker → Reply × Worker) → Supervisor → Reply × Supervisor
resolved none act s = (http_error 404, s)
resolved (some id) act s = on_worker id act s

abbrev pub on_call :
    (String → Option ℕ)
    → Option String
    → (Worker → Reply × Worker)
    → Supervisor
    → Reply × Supervisor
on_call resolve none act s = (http_error 400, s)
on_call resolve (some call_id) act s =
    if call_id == "" then (http_error 400, s) else resolved (resolve call_id) act s

-- A route that wants `deployment_id` in the body.
abbrev pub on_deployment : Option ℕ → (Worker → Reply × Worker) → Supervisor → Reply × Supervisor
on_deployment none act s = (http_error 400, s)
on_deployment (some id) act s = on_worker id act s

-- `next(iter(supervisor.workers.values()))`.
abbrev first_worker : List (ℕ × Worker) → Option ℕ
first_worker [] = none
first_worker ((id, w) ∷ workers) = some id

abbrev pub lead_target : Option ℕ → Supervisor → Option ℕ
lead_target none s = first_worker s.workers
lead_target (some id) s = some id

abbrev pub on_some_worker : Option ℕ → (Worker → Reply × Worker) → Supervisor → Reply × Supervisor
on_some_worker none act s = (http_error 503, s)
on_some_worker (some id) act s = on_worker id act s

-- The compat routes.
abbrev serve_lead : Outside → Option ℕ → String → Supervisor → Reply × Supervisor
serve_lead o id lead_id s =
    on_some_worker (lead_target id s)
      (λ w. answer compat_error (λ l. named_lead (full_name l) l) (get_lead o lead_id w)) s

abbrev serve_dispo : (String → Option ℕ) → Outside → CompatBody → Supervisor → Reply × Supervisor
serve_dispo resolve o body s =
    on_call resolve body.call_id
      (λ w.
        answer compat_error (λ _. done)
          (dispose o (get_or "DONE" body.dispo_code) none (get_or "" body.notes) w))
      s

abbrev serve_transfer : (String → Option ℕ) → Outside → CompatBody → Supervisor → Reply × Supervisor
serve_transfer resolve o body s =
    on_call resolve body.call_id
      (λ w.
        answer compat_error (λ _. done)
          (transfer_conference o (get_or "" body.ingroup_id) (get_or "" body.summary) w))
      s

abbrev serve_dnc : Outside → CompatBody → Supervisor → Reply × Supervisor
serve_dnc o body s =
    on_deployment body.deployment_id
      (λ w. answer compat_error (λ _. done) (dispose o "DNC" none (get_or "" body.reason) w)) s

abbrev serve_cb : Outside → CompatBody → Supervisor → Reply × Supervisor
serve_cb o body s =
    on_deployment body.deployment_id
      (λ w. answer compat_error (λ _. done) (dispose o "CALLBK" body.when (get_or "" body.notes) w))
      s

-- The routes, once the token is right.
pub route : (String → Option ℕ) → Outside → Request → Supervisor → Reply × Supervisor
route resolve o health s = (health_reply (length s.workers), s)
route resolve o (get_status id) s = on_worker id (λ w. (status_reply w.state, w)) s
route resolve o (call_info id) s =
    on_worker id (λ w. answer canonical_error call_info_reply (get_call_info o w)) s
route resolve o (lead id lead_id) s =
    on_worker id (λ w. answer canonical_error lead_reply (get_lead o lead_id w)) s
route resolve o (dispose_call id body) s =
    validated (is_between 1 64 body.status)
      (on_worker id
        (λ w.
          answer canonical_error (λ _. done)
            (dispose o body.status body.callback_datetime body.notes w))
        s)
      s
route resolve o (transfer id body) s =
    validated (leb 1 (size body.ingroup_id))
      (on_worker id
        (λ w.
          answer canonical_error (λ _. done) (transfer_conference o body.ingroup_id body.summary w))
        s)
      s
route resolve o (pause_call id pause_code) s =
    validated (is_between 1 64 pause_code)
      (on_worker id (λ w. answer canonical_error (λ _. done) (pause o pause_code w)) s) s
route resolve o (resume_call id) s =
    on_worker id (λ w. answer canonical_error (λ _. done) (resume o w)) s
route resolve o (hangup_call id) s =
    on_worker id (λ w. answer canonical_error (λ _. done) (hangup o w)) s
route resolve o (manual_dial_call id phone_number) s =
    validated (is_between 4 32 phone_number)
      (on_worker id
        (λ w. answer canonical_error (λ _. dialed phone_number) (manual_dial o phone_number w)) s)
      s
route resolve o (start_dep id) s = (started (Dict.get id s.workers), s)
route resolve o (stop_dep id) s = on_worker id (λ w. (done, Worker.stop o.env w)) s
route resolve o (compat_lead id lead_id) s = serve_lead o id lead_id s
route resolve o (compat_dispo body) s = serve_dispo resolve o body s
route resolve o (compat_transfer body) s = serve_transfer resolve o body s
route resolve o (compat_dnc body) s = serve_dnc o body s
route resolve o (compat_cb body) s = serve_cb o body s

-- `_check_auth`; the health of the service is told to everybody.
abbrev pub is_open_route : Request → Bool
is_open_route health = true
is_open_route request = false

unfoldable pub handle :
    (String → Option ℕ) → String → String → Outside → Request → Supervisor → Reply × Supervisor
handle resolve auth_token token o request s =
    if is_open_route request || token == auth_token
    then route resolve o request s
    else (http_error 401, s)
