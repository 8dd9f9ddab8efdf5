-- ===== src/Sip/Calls/Others.antt =====
-- What an INVITE of sip/src/aipanel_sip/call_handler.py does to the other calls of the router.
use aipanel.Base.{
  ℕ, ◌+◌, ◌≡◌, refl, ap, ◌∙◌, subst, Bool, false, List, [], ◌∷◌, ◌++◌, Option, none, some, nat_eq,
  nat_eq_iff, nat_Key, if◌then◌else◌, if-false, either_way, arith,
}
use aipanel.Base.Dict
use aipanel.Base.Dict.{get-put, get-remove}
use aipanel.Sip.Frame.Wire.{Bytes}
use aipanel.Sip.Bridge.{
  Bridge, init, setup_socket, SendResult, delivered, failed, encode_failed, send_control,
  AcceptResult, accepted, timeout_error, accept_error, runtime_error, accept_worker, close,
}
use aipanel.Sip.Calls.{
  CallContext, Router, Invite, Outside, Outcome, completed, worker_hangup, context, add, reject,
  hangup_popped, drop_call, worker_initiated_hangup, complete_popped, on_disconnected, Handled,
  early, refuse, answer_call, after_context, take_call, wait_worker, dispatch, with_socket,
  handle_invite,
}

abbrev is_held : Option ℕ → ℕ
is_held none = 0
is_held (some number) = 1

-- Whether the router has a call, as 0 or 1, and how often it was reported as ended.
abbrev pub held : ℕ → Router → ℕ
held call_id r = is_held (Dict.get call_id r.calls)

abbrev reports_in : ℕ → List (ℕ × Outcome) → ℕ
reports_in call_id [] = 0
reports_in call_id ((k, outcome) ∷ es) = (if nat_eq k call_id then 1 else 0) + reports_in call_id es

abbrev pub reports : ℕ → Router → ℕ
reports call_id r = reports_in call_id r.ended

reports-append :
    (call_id k : ℕ) (outcome : Outcome) (es : List (ℕ × Outcome))
    → reports_in call_id (es ++ (k, outcome) ∷ [])
      ≡ reports_in call_id es + (if nat_eq k call_id then 1 else 0)
reports-append call_id k outcome [] = omega arith
reports-append call_id k outcome ((j, o) ∷ es) = omega (arith, reports-append call_id k outcome es)

abbrev pub Moves : ℕ → Bool → Router → Router → Type 0
Moves call_id stops r r' =
    (held call_id r' + reports call_id r' ≡ held call_id r + reports call_id r)
    × (held call_id r' ≡ (if stops then 0 else held call_id r))

pub hangup-Moves :
    (call_id k : ℕ) (r : Router) → Moves call_id (nat_eq k call_id) r (worker_initiated_hangup k r)
unfolding worker_initiated_hangup hangup_popped drop_call
hangup-Moves call_id k r = ground (
  arith,
  reports-append call_id k worker_hangup r.ended,
  get-remove k call_id r.calls,
  nat_eq_iff k call_id,
)

pub disconnect-Moves :
    (call_id k : ℕ) (r : Router) → Moves call_id (nat_eq k call_id) r (on_disconnected k r)
unfolding on_disconnected complete_popped drop_call
disconnect-Moves call_id k r = ground (
  arith,
  reports-append call_id k completed r.ended,
  get-remove k call_id r.calls,
  nat_eq_iff k call_id,
)

pub same-Moves :
    (call_id : ℕ) (r r' : Router)
    → r'.calls ≡ r.calls
    → r'.ended ≡ r.ended
    → Moves call_id false r r'
same-Moves call_id r r' c e = (
  ap (λ x. is_held (Dict.get call_id x) + reports call_id r') c
      ∙ ap (λ x. held call_id r + reports_in call_id x) e,
  ap (λ x. is_held (Dict.get call_id x)) c,
)

pub Moves-after :
    (call_id : ℕ) (stops : Bool) (r m r' : Router)
    → m.calls ≡ r.calls
    → m.ended ≡ r.ended
    → Moves call_id stops m r'
    → Moves call_id stops r r'
Moves-after call_id stops r m r' c e moved =
    let same = same-Moves call_id r m c e in
    (moved.0 ∙ same.0, moved.1 ∙ ap (λ n. if stops then 0 else n) same.1)

-- An INVITE with another id keeps a call, and reports nothing of it.
abbrev pub Keeps : ℕ → Router → Handled → Type 0
Keeps call_id r h = Moves call_id false r h.router

module _ (dump : CallContext → Bytes) (call_id : ℕ) (i : Invite) (o : Outside)
    (other : nat_eq i.call_id call_id ≡ false) (r : Router) where
  early-Moves : Moves call_id false r (early dump i o r)
  early-Moves =
      either_way (Moves call_id false r) o.early_hangup (worker_initiated_hangup i.call_id r) r
        (subst (λ b. Moves call_id b r (worker_initiated_hangup i.call_id r)) other
          (hangup-Moves call_id i.call_id r))
        (same-Moves call_id r r refl refl)

  refuse-Keeps : (code : ℕ) (b : Option Bridge) → Keeps call_id r (refuse i code b r)
  unfolding reject
  refuse-Keeps code b = same-Moves call_id r (reject i code r) refl refl

  answer_call-Keeps : (b : Bridge) → Keeps call_id r (answer_call dump i o b r)
  unfolding answer_call add
  answer_call-Keeps b =
      let moved = early-Moves in
      let u = early dump i o r in
      let kept : Dict.get call_id (Dict.put i.call_id i.number u.calls) ≡ Dict.get call_id u.calls =
        get-put i.call_id call_id i.number u.calls
        ∙ if-false (nat_eq i.call_id call_id) _ _ other in
      either_way (Keeps call_id r) o.answer _ _
        (ap (λ x. is_held x + reports call_id u) kept ∙ moved.0, ap is_held kept ∙ moved.1) moved

  after_context-Keeps :
      (sent : SendResult) (b : Bridge) → Keeps call_id r (after_context dump i o sent b r)
  after_context-Keeps encode_failed b = early-Moves
  after_context-Keeps delivered b = answer_call-Keeps b
  after_context-Keeps failed b = answer_call-Keeps b

  take_call-Keeps : (b : Bridge) → Keeps call_id r (take_call dump i o b r)
  unfolding take_call
  take_call-Keeps b =
      let sent = send_control (dump (context i)) o.sendall b in
      either_way (Keeps call_id r) o.create (after_context dump i o sent.1 sent.0 r)
        (refuse i 500 (some (close o.unlink b)) r) (after_context-Keeps sent.1 sent.0)
        (refuse-Keeps 500 (some (close o.unlink b)))

  wait_worker-Keeps : (a : AcceptResult) (b : Bridge) → Keeps call_id r (wait_worker dump i o a b r)
  unfolding wait_worker
  wait_worker-Keeps (accepted b') b = take_call-Keeps b'
  wait_worker-Keeps timeout_error b = refuse-Keeps 503 (some (close o.unlink b))
  wait_worker-Keeps accept_error b = refuse-Keeps 500 (some (close o.unlink b))
  wait_worker-Keeps runtime_error b = same-Moves call_id r r refl refl

module _ (dump : CallContext → Bytes) (call_id : ℕ) (i : Invite) (o : Outside)
    (other : nat_eq i.call_id call_id ≡ false) (r : Router) where
  dispatch-Keeps : (b : Bridge) → Keeps call_id r (dispatch dump i o b r)
  unfolding dispatch
  dispatch-Keeps b =
      let told : Router = record r { published = r.published ++ context i ∷ [] } in
      either_way (Keeps call_id r) o.publish
        (wait_worker dump i o (accept_worker o.accept b) b told)
        (refuse i 503 (some (close o.unlink b)) r)
        (Moves-after call_id false r told
          (wait_worker dump i o (accept_worker o.accept b) b told).router refl refl
          (wait_worker-Keeps dump call_id i o other told (accept_worker o.accept b) b))
        (refuse-Keeps dump call_id i o other r 503 (some (close o.unlink b)))

  with_socket-Keeps : (made : Option Bridge) → Keeps call_id r (with_socket dump i o made r)
  unfolding with_socket
  with_socket-Keeps none = refuse-Keeps dump call_id i o other r 500 none
  with_socket-Keeps (some b) = dispatch-Keeps b

  pub handle_invite-Keeps : Keeps call_id r (handle_invite dump i o r)
  unfolding handle_invite
  handle_invite-Keeps =
      let made = setup_socket o.bind (init o.path) in
      either_way (Keeps call_id r) r.shutting_down (refuse i 503 none r)
        (with_socket dump i o made r) (refuse-Keeps dump call_id i o other r 503 none)
        (with_socket-Keeps made)
