-- ===== src/Vici/Api/Compat.antt =====
-- The compat routes of session-mgr/src/aipanel_vici/api.py: against the canonical ones, and against what the
-- client of the call worker, workers/src/aipanel_worker/vici_client.py, posts to them.
use aipanel.Base.{
  ℕ, ◌≡◌, refl, sym, ap, ◌∙◌, String, Text, true, false, Option, none, some, if◌then◌else◌, if-true,
  if-false, ◌==◌, string_Key, nat_Key, eq_iff, nat_eq, arith,
}
use aipanel.Base.Dict
use aipanel.Vici.Worker.{Worker}
use aipanel.Vici.Worker.Calls.{
  session_expired, attribute_error, send_error, Result, ok, raised, Outside, dispose,
}
use aipanel.Vici.Supervisor.{Supervisor}
use aipanel.Vici.Api.{
  Reply, done, http_error, Request, DisposeBody, CompatBody, compat_dispo, compat_transfer,
  compat_dnc, compat_cb, dispose_call, is_between, get_or, answer, canonical_error, compat_error,
  reply_of, on_found, on_worker, on_call, resolved, route, handle,
}
use aipanel.Agent.Tools.{ViciPost, transfer_post, dnc_post, callback_post}

abbrev empty_body : CompatBody
empty_body = record {
  call_id = none;
  deployment_id = none;
  dispo_code = none;
  ingroup_id = none;
  summary = none;
  reason = none;
  when = none;
  notes = none;
}

-- `transfer_to_ingroup`, `mark_dnc` and `schedule_callback` of ViciClient, as requests; `str` is the text
-- of a list of characters. The keys that no route reads are left out.
pub post_request : (Text → String) → String → ViciPost → Request
post_request str call_id (transfer_post ingroup_id summary) = compat_transfer (record empty_body {
  call_id = some call_id;
  ingroup_id = some (str ingroup_id);
  summary = some (str summary);
})
post_request str call_id (dnc_post reason) =
    compat_dnc (record empty_body { reason = some (str reason) })
post_request str call_id (callback_post when notes) =
    compat_cb (record empty_body { when = some (str when); notes = some (str notes) })

-- What the worker asks for with the right token to put a lead on the DNC list, or to call it back, is
-- refused with 400, and nothing is sent to ViciDial: the client gives no deployment.
pub post_request-refused :
    (resolve : String → Option ℕ) (str : Text → String) (auth_token call_id : String) (o : Outside)
    (reason when notes : Text) (s : Supervisor)
    → (handle resolve auth_token auth_token o (post_request str call_id (dnc_post reason)) s
        ≡ (http_error 400, s))
      × (handle resolve auth_token auth_token o
            (post_request str call_id (callback_post when notes))
            s
          ≡ (http_error 400, s))
unfolding handle route post_request
post_request-refused resolve str auth_token call_id o reason when notes s =
    let allowed : (auth_token == auth_token) ≡ true =
      ground (arith, eq_iff auth_token auth_token) in
    (if-true (auth_token == auth_token) _ _ allowed, if-true (auth_token == auth_token) _ _ allowed)

-- The compat route answers 500 where the canonical one says that the session is gone.
abbrev as_compat : Reply → Reply
as_compat (http_error status) = http_error (if nat_eq status 503 then 500 else status)
as_compat r = r

abbrev both : Reply × Supervisor → Reply × Supervisor
both r = (as_compat r.0, r.1)

reply-as_compat :
    (r : Result (Unit {0}))
    → reply_of compat_error (λ _. done) r ≡ as_compat (reply_of canonical_error (λ _. done) r)
reply-as_compat (ok a) = refl
reply-as_compat (raised session_expired) = refl
reply-as_compat (raised attribute_error) = refl
reply-as_compat (raised send_error) = refl

found-as_compat :
    (id : ℕ) (act : Worker → Result (Unit {0}) × Worker) (found : Option Worker) (s : Supervisor)
    → on_found id (λ w. answer compat_error (λ _. done) (act w)) found s
      ≡ both (on_found id (λ w. answer canonical_error (λ _. done) (act w)) found s)
found-as_compat id act none s = refl
found-as_compat id act (some w) s =
    ap (λ r. (r, record s { workers = Dict.put id (act w).1 s.workers }))
      (reply-as_compat (act w).0)

worker-as_compat :
    (id : ℕ) (act : Worker → Result (Unit {0}) × Worker) (s : Supervisor)
    → on_worker id (λ w. answer compat_error (λ _. done) (act w)) s
      ≡ both (on_worker id (λ w. answer canonical_error (λ _. done) (act w)) s)
unfolding on_worker
worker-as_compat id act s = found-as_compat id act (Dict.get id s.workers) s

-- The canonical body for one that is posted to the compat route.
abbrev as_dispose : CompatBody → DisposeBody
as_dispose body = record {
  status = get_or "DONE" body.dispo_code;
  callback_datetime = none;
  notes = get_or "" body.notes;
}

-- For a call that the database knows, and a code of 1 to 64 characters: the disposition that the worker posts
-- does to all workers what the canonical route does for the call's deployment, and is answered alike,
-- but with 500 where the canonical route answers 503.
compat_dispo-dispose_call :
    (resolve : String → Option ℕ) (o : Outside) (call_id : String) (id : ℕ) (body : CompatBody)
    (s : Supervisor)
    → body.call_id ≡ some call_id
    → (call_id == "") ≡ false
    → resolve call_id ≡ some id
    → is_between 1 64 (get_or "DONE" body.dispo_code) ≡ true
    → let canonical = route resolve o (dispose_call id (as_dispose body)) s in
      route resolve o (compat_dispo body) s ≡ (as_compat canonical.0, canonical.1)
unfolding route
compat_dispo-dispose_call resolve o call_id id body s given named known fits =
    let act : Worker → Result (Unit {0}) × Worker =
      dispose o (get_or "DONE" body.dispo_code) none (get_or "" body.notes) in
    let compat : Worker → Reply × Worker = λ w. answer compat_error (λ _. done) (act w) in
    let canon = on_worker id (λ w. answer canonical_error (λ _. done) (act w)) s in
    ap (λ c. on_call resolve c compat s) given
    ∙ if-false (call_id == "") _ _ named
    ∙ ap (λ i. resolved i compat s) known
    ∙ worker-as_compat id act s
    ∙ ap both (
        sym (
          if-true (is_between 1 64 (get_or "DONE" body.dispo_code)) canon (http_error 422, s) fits))
