-- ===== src/Sip/Calls.antt =====
-- sip/src/aipanel_sip/call_handler.py and worker_dispatcher.py: what becomes of an INVITE, and of the
-- calls that were answered. An object of `_IncomingCall` is a `Line`, which PJSIP keeps while the
-- dialog lives; CallState's table says which of them the router has. `answers`, `byes`, `published`
-- and `ended` record what was asked of PJSIP and of Redis and the calls of `on_call_ended`, the
-- oldest first. A UUID is a number.
pub mod Callbacks
pub mod Invites
pub mod Others
pub mod Settled
mod Tests
use aipanel.Base.{
  ℕ, ◌≡◌, String, Text, Bool, true, false, not, List, [], ◌∷◌, ◌++◌, Option, none, some, map,
  nat_eq, nat_Key, string_Key, if◌then◌else◌,
}
use aipanel.Base.Dict
use aipanel.Base.Dict.{Dict}
use aipanel.Sip.Frame.Wire.{Bytes}
use aipanel.Sip.Headers.{parse_headers}
use aipanel.Sip.Bridge.{
  Bridge, init, setup_socket, Accept, AcceptResult, accepted, runtime_error, timeout_error,
  accept_error, accept_worker, SendResult, delivered, failed, encode_failed, send_control,
  send_hangup, send_dtmf, attach_media, close,
}

-- CallContext, without the time at which it is made.
pub record CallContext : Type 0 where
  pub call_id : ℕ
  pub deployment_id : ℕ
  pub account_login : String
  pub vici_lead_id : Option Text
  pub vici_uniqueid : Option Text
  pub vici_campaign : Option Text
  pub vici_phone : Option Text
  pub p_asserted_identity : Option Text

-- `pj.Call` with its bridge: `number` is PJSIP's id of the call.
pub record Line : Type 0 where
  pub number : ℕ
  pub bridge : Bridge
  pub media_attached : Bool

pub data Outcome : Type 0 where
  completed worker_hangup : Outcome

pub record Router : Type 0 where
  pub calls : Dict ℕ ℕ
  pub shutting_down : Bool
  pub lines : Dict ℕ Line
  pub answers : List (ℕ × ℕ)
  pub byes : List ℕ
  pub published : List CallContext
  pub ended : List (ℕ × Outcome)

-- An INVITE: the fresh UUID that it gets, PJSIP's id, the account, and the raw message.
pub record Invite : Type 0 where
  pub call_id : ℕ
  pub number : ℕ
  pub deployment_id : ℕ
  pub phone_login : String
  pub raw_msg : Text

-- How the calls out of `handle_invite` end, and whether the worker hangs up before it has returned.
pub record Outside : Type 0 where
  pub path : Bool
  pub bind : Bool
  pub publish : Bool
  pub accept : Accept
  pub create : Bool
  pub sendall : Bool
  pub answer : Bool
  pub unlink : Bool
  pub early_hangup : Bool

unfoldable pub context : Invite → CallContext
unfolding parse_headers
context i =
    let headers = parse_headers i.raw_msg in
    record {
      call_id = i.call_id;
      deployment_id = i.deployment_id;
      account_login = i.phone_login;
      vici_lead_id = Dict.get "vici_lead_id" headers;
      vici_uniqueid = Dict.get "vici_uniqueid" headers;
      vici_campaign = Dict.get "vici_campaign" headers;
      vici_phone = Dict.get "vici_phone" headers;
      p_asserted_identity = Dict.get "p_asserted_identity" headers;
    }

-- CallState: `add`, and what `pop` leaves.
pub add : ℕ → ℕ → Router → Router
add call_id number r = record r { calls = Dict.put call_id number r.calls }

pub drop_call : ℕ → Router → Router
drop_call call_id r = record r { calls = Dict.remove call_id r.calls }

abbrev pub answer : ℕ → ℕ → Router → Router
answer number code r = record r { answers = r.answers ++ (number, code) ∷ [] }

-- `_reject`; an error of PJSIP is only logged.
pub reject : Invite → ℕ → Router → Router
reject i code r = answer i.number code r

abbrev note_end : ℕ → Outcome → Router → Router
note_end call_id outcome r = record r { ended = r.ended ++ (call_id, outcome) ∷ [] }

-- `_worker_initiated_hangup`, on the call that `pop` gives.
pub hangup_popped : ℕ → Option ℕ → Router → Router
hangup_popped call_id none r = r
hangup_popped call_id (some number) r =
    note_end call_id worker_hangup (record (drop_call call_id r) { byes = r.byes ++ number ∷ [] })

pub worker_initiated_hangup : ℕ → Router → Router
worker_initiated_hangup call_id r = hangup_popped call_id (Dict.get call_id r.calls) r

-- `_on_disconnected`.
pub complete_popped : ℕ → Option ℕ → Router → Router
complete_popped call_id none r = r
complete_popped call_id (some number) r = note_end call_id completed (drop_call call_id r)

pub on_disconnected : ℕ → Router → Router
on_disconnected call_id r = complete_popped call_id (Dict.get call_id r.calls) r

-- What `handle_invite` leaves: the router, the bridge if it made one, and whether an exception of
-- `encode_frame` or `accept_worker` left it.
pub record Handled : Type 0 where
  pub router : Router
  pub bridge : Option Bridge
  pub raised : Bool

abbrev pub refuse : Invite → ℕ → Option Bridge → Router → Handled
refuse i code b r = record { router = reject i code r; bridge = b; raised = false }

-- The context of a call as the JSON text of its first frame, encoded in UTF-8.
module _ (dump : CallContext → Bytes) where
  abbrev pub early : Invite → Outside → Router → Router
  early i o r = if o.early_hangup then worker_initiated_hangup i.call_id r else r

  -- `call.answer`, and what comes after it.
  pub answer_call : Invite → Outside → Bridge → Router → Handled
  answer_call i o b r =
      if o.answer
      then record {
        router = add i.call_id i.number (record (answer i.number 200 (early i o r)) {
          lines =
              Dict.put i.call_id (record { number = i.number; bridge = b; media_attached = false })
                r.lines;
        });
        bridge = some b;
        raised = false;
      }
      else record { router = early i o r; bridge = some (close o.unlink b); raised = false }

  abbrev pub after_context : Invite → Outside → SendResult → Bridge → Router → Handled
  after_context i o encode_failed b r = record {
    router = early i o r;
    bridge = some b;
    raised = true;
  }
  after_context i o _ b r = answer_call i o b r

  -- From the worker's connection on.
  pub take_call : Invite → Outside → Bridge → Router → Handled
  take_call i o b r =
      if o.create
      then (let sent = send_control (dump (context i)) o.sendall b in
          after_context i o sent.1 sent.0 r)
      else refuse i 500 (some (close o.unlink b)) r

  pub wait_worker : Invite → Outside → AcceptResult → Bridge → Router → Handled
  wait_worker i o (accepted b') b r = take_call i o b' r
  wait_worker i o timeout_error b r = refuse i 503 (some (close o.unlink b)) r
  wait_worker i o accept_error b r = refuse i 500 (some (close o.unlink b)) r
  wait_worker i o runtime_error b r = record { router = r; bridge = some b; raised = true }

  -- `publish_request`, and the wait for a worker.
  unfoldable pub dispatch : Invite → Outside → Bridge → Router → Handled
  dispatch i o b r =
      if o.publish
      then wait_worker i o (accept_worker o.accept b) b
          (record r { published = r.published ++ context i ∷ [] })
      else refuse i 503 (some (close o.unlink b)) r

  pub with_socket : Invite → Outside → Option Bridge → Router → Handled
  with_socket i o none r = refuse i 500 none r
  with_socket i o (some b) r = dispatch i o b r

  pub handle_invite : Invite → Outside → Router → Handled
  handle_invite i o r =
      if r.shutting_down
      then refuse i 503 none r
      else with_socket i o (setup_socket o.bind (init o.path)) r
