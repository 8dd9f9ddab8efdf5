-- ===== src/Sip/Calls/Invites.antt =====
-- What `handle_invite` of sip/src/aipanel_sip/call_handler.py leaves behind.
use aipanel.Base.{
  ℕ, ◌≡◌, refl, sym, ap, subst, ◌∙◌, Bool, true, false, Bool-cases, [], ◌∷◌, ◌++◌, Option, none,
  some, inl, inr, ◌⊎◌, nat_Key, if-true, if-false, arith,
}
use aipanel.Base.Dict
use aipanel.Base.Dict.{Dict}
use aipanel.Sip.Frame.Wire.{Bytes}
use aipanel.Sip.Frame.{encode_frame, ok, frame_control}
use aipanel.Sip.Bridge.{
  Bridge, init, setup_socket, Accept, accept_listener, accept_worker, connected, timed_out,
  os_error, send, send_control, SendResult, delivered, failed, encode_failed, close,
}
use aipanel.Sip.Calls.{
  CallContext, Router, Invite, Outside, context, add, reject, hangup_popped,
  worker_initiated_hangup, Handled, early, after_context, answer_call, take_call, wait_worker,
  dispatch, with_socket, handle_invite,
}

-- No bridge is left open.
abbrev is_closed : Option Bridge → Bool
is_closed none = true
is_closed (some b) = b.closed

-- The call is in the table and answered with 200, its bridge is open and connected to a worker.
pub record IsTaken (i : Invite) (r : Router) (h : Handled) : Type 0 where
  pub calls : h.router.calls ≡ Dict.put i.call_id i.number r.calls
  pub answered : h.router.answers ≡ r.answers ++ (i.number, 200) ∷ []
  pub bridge : (b : Bridge) × (h.bridge ≡ some b) × (b.client ≡ true) × (b.closed ≡ false)

-- The call has left no trace but in the answers: no bridge is open.
pub record IsRefused (r : Router) (h : Handled) : Type 0 where
  pub calls : h.router.calls ≡ r.calls
  pub lines : h.router.lines ≡ r.lines
  pub closed : is_closed h.bridge ≡ true

abbrev pub IsSettled : Invite → Router → Handled → Type 0
IsSettled i r h = (h.raised ≡ false) × (h.router.ended ≡ r.ended) × (IsTaken i r h ⊎ IsRefused r h)

-- A router that differs from another in what it has published.
abbrev IsLike : Router → Router → Type 0
IsLike r' r =
    (r'.calls ≡ r.calls) × (r'.lines ≡ r.lines) × (r'.answers ≡ r.answers) × (r'.ended ≡ r.ended)

close-closed : (unlink : Bool) (b : Bridge) → (close unlink b).closed ≡ true
unfolding close
close-closed unlink b = ground arith

-- A hangup that comes before the call is in the table finds nothing to hang up.
early_lem :
    (dump : CallContext → Bytes) (i : Invite) (o : Outside) (r : Router)
    → Dict.get i.call_id r.calls ≡ none
    → early dump i o r ≡ r
unfolding worker_initiated_hangup hangup_popped
early_lem dump i o r fresh = ground arith

sent_lem :
    (payload wire : Bytes) (sendall : Bool) (b : Bridge)
    → b.client ≡ true
    → encode_frame frame_control payload ≡ ok wire
    → let s = send_control payload sendall b in
      ((s.1 ≡ delivered) ⊎ (s.1 ≡ failed)) × (s.0.client ≡ true) × (s.0.closed ≡ b.closed)
unfolding send_control send
sent_lem payload wire sendall b c e = ground arith

refused-IsSettled :
    (i : Invite) (code : ℕ) (b : Option Bridge) (r r' : Router)
    → IsLike r' r
    → is_closed b ≡ true
    → IsSettled i r (record { router = reject i code r'; bridge = b; raised = false })
unfolding reject
refused-IsSettled i code b r r' like c =
    (refl, like.3, inr (record { calls = like.0; lines = like.1; closed = c }))

module _ (dump : CallContext → Bytes) (i : Invite) (o : Outside) (r : Router) where
  answer_call-IsSettled :
      (r' : Router) (b : Bridge)
      → IsLike r' r
      → early dump i o r' ≡ r'
      → b.client ≡ true
      → b.closed ≡ false
      → IsSettled i r (answer_call dump i o b r')
  unfolding answer_call add
  answer_call-IsSettled r' b like quiet client up = elim (Bool-cases o.answer) [
    | inl works ↦ subst (IsSettled i r) (sym (if-true _ _ _ works)) (
      refl,
      ap (λ x. x.ended) quiet ∙ like.3,
      inl (record {
        calls =
            ap (λ x. Dict.put i.call_id i.number x.calls) quiet
            ∙ ap (Dict.put i.call_id i.number) like.0;
        answered =
            ap (λ x. x.answers ++ (i.number, 200) ∷ []) quiet
            ∙ ap (λ a. a ++ (i.number, 200) ∷ []) like.2;
        bridge = (b, refl, client, up);
      }),
    )
    | inr fails ↦ subst (IsSettled i r) (sym (if-false _ _ _ fails)) (
      refl,
      ap (λ x. x.ended) quiet ∙ like.3,
      inr (record {
        calls = ap (λ x. x.calls) quiet ∙ like.0;
        lines = ap (λ x. x.lines) quiet ∙ like.1;
        closed = close-closed o.unlink b;
      }),
    )
  ]

  take_call-IsSettled :
      (r' : Router) (b : Bridge) (wire : Bytes)
      → IsLike r' r
      → early dump i o r' ≡ r'
      → encode_frame frame_control (dump (context i)) ≡ ok wire
      → b.client ≡ true
      → b.closed ≡ false
      → IsSettled i r (take_call dump i o b r')
  unfolding take_call
  take_call-IsSettled r' b wire like quiet enc client up = elim (Bool-cases o.create) [
    | inl works ↦
        let s = send_control (dump (context i)) o.sendall b in
        let l = sent_lem (dump (context i)) wire o.sendall b client enc in
        let done = answer_call-IsSettled r' s.0 like quiet l.1 (l.2 ∙ up) in
        subst (IsSettled i r) (sym (if-true _ _ _ works ∙ passed s.1 s.0 r' l.0)) done
    | inr fails ↦
        subst (IsSettled i r) (sym (if-false _ _ _ fails))
          (refused-IsSettled i 500 (some (close o.unlink b)) r r' like (close-closed o.unlink b))
  ]
    where
      passed :
          (res : SendResult) (b : Bridge) (x : Router)
          → (res ≡ delivered) ⊎ (res ≡ failed)
          → after_context dump i o res b x ≡ answer_call dump i o b x
      passed delivered b x e = refl
      passed failed b x e = refl
      passed encode_failed b x (inl e) = cc
      passed encode_failed b x (inr e) = cc

  wait_worker-IsSettled :
      (r' : Router) (b : Bridge) (wire : Bytes)
      → IsLike r' r
      → early dump i o r' ≡ r'
      → encode_frame frame_control (dump (context i)) ≡ ok wire
      → b.listener ≡ true
      → b.closed ≡ false
      → IsSettled i r (wait_worker dump i o (accept_worker o.accept b) b r')
  unfolding accept_worker
  wait_worker-IsSettled r' b wire like quiet enc listens up =
      subst (λ a. IsSettled i r (wait_worker dump i o a b r')) (sym (if-true _ _ _ listens))
        (go o.accept)
    where
      go : (a : Accept) → IsSettled i r (wait_worker dump i o (accept_listener a b) b r')
      go connected =
          unfold wait_worker in
          take_call-IsSettled r' (record b { client = true; threads = true }) wire like quiet enc
            refl up
      go timed_out =
          unfold wait_worker in
          refused-IsSettled i 503 (some (close o.unlink b)) r r' like (close-closed o.unlink b)
      go os_error =
          unfold wait_worker in
          refused-IsSettled i 500 (some (close o.unlink b)) r r' like (close-closed o.unlink b)

  dispatch-IsSettled :
      (b : Bridge) (wire : Bytes)
      → Dict.get i.call_id r.calls ≡ none
      → encode_frame frame_control (dump (context i)) ≡ ok wire
      → b.listener ≡ true
      → b.closed ≡ false
      → IsSettled i r (dispatch dump i o b r)
  unfolding dispatch
  dispatch-IsSettled b wire fresh enc listens up = elim (Bool-cases o.publish) [
    | inl works ↦
        let told : Router = record r { published = r.published ++ context i ∷ [] } in
        subst (IsSettled i r) (sym (if-true _ _ _ works)) (
          wait_worker-IsSettled told b wire (refl, refl, refl, refl) (early_lem dump i o told fresh)
            enc listens up)
    | inr fails ↦ subst (IsSettled i r) (sym (if-false _ _ _ fails)) (
        refused-IsSettled i 503 (some (close o.unlink b)) r r (refl, refl, refl, refl)
          (close-closed o.unlink b))
  ]

  set_up_lem :
      (b : Bridge)
      → setup_socket o.bind (init o.path) ≡ some b
      → (b.listener ≡ true) × (b.closed ≡ false)
  unfolding setup_socket init
  set_up_lem b e = ground arith

  -- An INVITE whose call id is new, and whose context fits in a frame, ends in one of two ways,
  -- however the system calls, Redis, the worker and PJSIP behave: the call is in the table and
  -- answered with 200, its bridge open and connected; or the tables are as before and no bridge is
  -- left open. In both no exception escapes, and no call is reported as ended, also where the worker
  -- hangs up before the call is in the table.
  pub handle_invite-IsSettled :
      (wire : Bytes)
      → Dict.get i.call_id r.calls ≡ none
      → encode_frame frame_control (dump (context i)) ≡ ok wire
      → IsSettled i r (handle_invite dump i o r)
  unfolding handle_invite
  handle_invite-IsSettled wire fresh enc = elim (Bool-cases r.shutting_down) [
    | inl down ↦
        subst (IsSettled i r) (sym (if-true _ _ _ down))
          (refused-IsSettled i 503 none r r (refl, refl, refl, refl) refl)
    | inr up ↦
        subst (IsSettled i r) (sym (if-false _ _ _ up))
          (go (setup_socket o.bind (init o.path)) set_up_lem)
  ]
    where
      go :
          (made : Option Bridge)
          → ((b : Bridge) → made ≡ some b → (b.listener ≡ true) × (b.closed ≡ false))
          → IsSettled i r (with_socket dump i o made r)
      go none h =
          unfold with_socket in refused-IsSettled i 500 none r r (refl, refl, refl, refl) refl
      go (some b) h =
          unfold with_socket in dispatch-IsSettled b wire fresh enc (h b refl).0 (h b refl).1
