-- ===== src/Vici/Api/Isolation.antt =====
-- What a request to session-mgr/src/aipanel_vici/api.py does to the workers of other deployments.
use aipanel.Base.{
  ℕ, ◌≡◌, ◌⊎◌, inl, inr, refl, sym, ap, ◌∙◌, String, Bool, true, false, ◌||◌, Option, none, some,
  is_some, nat_eq, if◌then◌else◌, if-true, if-false, either_way, ◌==◌, string_Key, nat_Key, arith,
  Bool-cases,
}
use aipanel.Base.Dict
use aipanel.Vici.Worker.{Worker}
use aipanel.Vici.Worker.Calls.{Outside}
use aipanel.Vici.Supervisor.{Supervisor}
use aipanel.Vici.Api.{
  Reply, http_error, Request, health, get_status, call_info, resume_call, hangup_call, start_dep,
  stop_dep, lead, dispose_call, transfer, pause_call, manual_dial_call, compat_lead, compat_dispo,
  compat_transfer, compat_dnc, compat_cb, on_found, on_worker, validated, resolved, on_call,
  on_deployment, lead_target, on_some_worker, route, is_open_route, handle,
}

-- Nothing is scheduled or let go, the same deployments have a worker, and the worker of `j` is the same
-- unless the request is about `j`.
abbrev pub IsApart : Option ℕ → Supervisor → ℕ → Supervisor → Type 0
IsApart target s j s' =
    (s'.tasks ≡ s.tasks)
    × (s'.retired ≡ s.retired)
    × (is_some (Dict.get j s'.workers) ≡ is_some (Dict.get j s.workers))
    × ((Dict.get j s'.workers ≡ Dict.get j s.workers) ⊎ (target ≡ some j))

same-IsApart : (target : Option ℕ) (s : Supervisor) (j : ℕ) → IsApart target s j s
same-IsApart target s j = (refl, refl, refl, inl refl)

abbrev IsApartReply : Option ℕ → Supervisor → ℕ → Reply × Supervisor → Type 0
IsApartReply target s j r = IsApart target s j r.1

on_found-IsApart :
    (id j : ℕ) (act : Worker → Reply × Worker) (found : Option Worker) (s : Supervisor)
    → Dict.get id s.workers ≡ found
    → IsApartReply (some id) s j (on_found id act found s)
on_found-IsApart id j act none s e = same-IsApart (some id) s j
on_found-IsApart id j act (some w) s e = elim (Bool-cases (nat_eq id j)) [
  | inl this ↦
      let same : id ≡ j = ground (arith, this) in
      (
        refl,
        refl,
        ap is_some (Dict.get-put id j (act w).1 s.workers ∙ if-true (nat_eq id j) _ _ this)
            ∙ sym (ap is_some (ap (λ k. Dict.get k s.workers) (sym same) ∙ e)),
        inr (ap some same),
      )
  | inr other ↦
      let kept = Dict.get-put id j (act w).1 s.workers ∙ if-false (nat_eq id j) _ _ other in
      (refl, refl, ap is_some kept, inl kept)
]

on_worker-IsApart :
    (id j : ℕ) (act : Worker → Reply × Worker) (s : Supervisor)
    → IsApartReply (some id) s j (on_worker id act s)
unfolding on_worker
on_worker-IsApart id j act s = on_found-IsApart id j act (Dict.get id s.workers) s refl

validated-IsApart :
    (fits : Bool) (id j : ℕ) (act : Worker → Reply × Worker) (s : Supervisor)
    → IsApartReply (some id) s j (validated fits (on_worker id act s) s)
validated-IsApart fits id j act s =
    either_way (IsApartReply (some id) s j) fits (on_worker id act s) (http_error 422, s)
      (on_worker-IsApart id j act s) (same-IsApart (some id) s j)

-- The deployment that a call stands for.
abbrev call_target : (String → Option ℕ) → Option String → Option ℕ
call_target resolve none = none
call_target resolve (some call_id) = if call_id == "" then none else resolve call_id

-- The deployment that a request is about.
abbrev pub target : (String → Option ℕ) → Request → Supervisor → Option ℕ
target resolve health s = none
target resolve (get_status id) s = some id
target resolve (call_info id) s = some id
target resolve (resume_call id) s = some id
target resolve (hangup_call id) s = some id
target resolve (start_dep id) s = some id
target resolve (stop_dep id) s = some id
target resolve (lead id lead_id) s = some id
target resolve (dispose_call id body) s = some id
target resolve (transfer id body) s = some id
target resolve (pause_call id code) s = some id
target resolve (manual_dial_call id phone) s = some id
target resolve (compat_lead id lead_id) s = lead_target id s
target resolve (compat_dispo body) s = call_target resolve body.call_id
target resolve (compat_transfer body) s = call_target resolve body.call_id
target resolve (compat_dnc body) s = body.deployment_id
target resolve (compat_cb body) s = body.deployment_id

resolved-IsApart :
    (id : Option ℕ) (j : ℕ) (act : Worker → Reply × Worker) (s : Supervisor)
    → IsApartReply id s j (resolved id act s)
resolved-IsApart none j act s = same-IsApart none s j
resolved-IsApart (some id) j act s = on_worker-IsApart id j act s

on_call-IsApart :
    (resolve : String → Option ℕ) (call_id : Option String) (j : ℕ) (act : Worker → Reply × Worker)
    (s : Supervisor)
    → IsApartReply (call_target resolve call_id) s j (on_call resolve call_id act s)
on_call-IsApart resolve none j act s = same-IsApart none s j
on_call-IsApart resolve (some call_id) j act s = elim (Bool-cases (call_id == "")) [
  | inl empty ↦ rw empty (same-IsApart none s j)
  | inr given ↦ rw given (resolved-IsApart (resolve call_id) j act s)
]

on_deployment-IsApart :
    (id : Option ℕ) (j : ℕ) (act : Worker → Reply × Worker) (s : Supervisor)
    → IsApartReply id s j (on_deployment id act s)
on_deployment-IsApart none j act s = same-IsApart none s j
on_deployment-IsApart (some id) j act s = on_worker-IsApart id j act s

on_some-IsApart :
    (id : Option ℕ) (j : ℕ) (act : Worker → Reply × Worker) (s : Supervisor)
    → IsApartReply id s j (on_some_worker id act s)
on_some-IsApart none j act s = same-IsApart none s j
on_some-IsApart (some id) j act s = on_worker-IsApart id j act s

route-IsApart :
    (resolve : String → Option ℕ) (o : Outside) (request : Request) (s : Supervisor) (j : ℕ)
    → IsApartReply (target resolve request s) s j (route resolve o request s)
unfolding route
route-IsApart resolve o health s j = same-IsApart none s j
route-IsApart resolve o (get_status id) s j = on_worker-IsApart id j _ s
route-IsApart resolve o (call_info id) s j = on_worker-IsApart id j _ s
route-IsApart resolve o (resume_call id) s j = on_worker-IsApart id j _ s
route-IsApart resolve o (hangup_call id) s j = on_worker-IsApart id j _ s
route-IsApart resolve o (start_dep id) s j = same-IsApart (some id) s j
route-IsApart resolve o (stop_dep id) s j = on_worker-IsApart id j _ s
route-IsApart resolve o (lead id lead_id) s j = on_worker-IsApart id j _ s
route-IsApart resolve o (dispose_call id body) s j = validated-IsApart _ id j _ s
route-IsApart resolve o (transfer id body) s j = validated-IsApart _ id j _ s
route-IsApart resolve o (pause_call id code) s j = validated-IsApart _ id j _ s
route-IsApart resolve o (manual_dial_call id phone) s j = validated-IsApart _ id j _ s
route-IsApart resolve o (compat_lead id lead_id) s j = on_some-IsApart (lead_target id s) j _ s
route-IsApart resolve o (compat_dispo body) s j = on_call-IsApart resolve body.call_id j _ s
route-IsApart resolve o (compat_transfer body) s j = on_call-IsApart resolve body.call_id j _ s
route-IsApart resolve o (compat_dnc body) s j = on_deployment-IsApart body.deployment_id j _ s
route-IsApart resolve o (compat_cb body) s j = on_deployment-IsApart body.deployment_id j _ s

guarded-IsApart :
    (allowed : Bool) (about : Option ℕ) (s : Supervisor) (j : ℕ) (r : Reply × Supervisor)
    → IsApartReply about s j r
    → IsApartReply
        (if allowed then about else none)
        s
        j
        (if allowed then r else (http_error 401, s))
guarded-IsApart true about s j r v = v
guarded-IsApart false about s j r v = same-IsApart none s j

-- Whatever is asked and however ViciDial answers: nothing is scheduled or let go, the same deployments have
-- a worker, and every worker stays as it is but that of the deployment that the request is about, which
-- stays too where the token is wrong.
pub handle-IsApart :
    (resolve : String → Option ℕ) (auth_token token : String) (o : Outside) (request : Request)
    (s : Supervisor) (j : ℕ)
    → IsApart
        (if is_open_route request || token == auth_token then target resolve request s else none)
        s
        j
        (handle resolve auth_token token o request s).1
unfolding handle
handle-IsApart resolve auth_token token o request s j =
    guarded-IsApart (is_open_route request || token == auth_token) (target resolve request s) s j
      (route resolve o request s) (route-IsApart resolve o request s j)
