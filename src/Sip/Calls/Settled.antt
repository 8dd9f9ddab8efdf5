-- ===== src/Sip/Calls/Settled.antt =====
-- How often a call is reported as ended, along any order of what happens to the router.
use aipanel.Base.{
  ℕ, ◌≡◌, refl, ◌∙◌, Bool, true, false, Bool-cases, List, [], ◌∷◌, inl, inr, nat_eq, nat_Key,
  if◌then◌else◌, arith, All, ◌||◌,
}
use aipanel.Sip.Frame.Wire.{Bytes}
use aipanel.Sip.Bridge.{close, send_hangup, send_dtmf}
use aipanel.Sip.Calls.{
  CallContext, Line, Router, Invite, Outside, worker_initiated_hangup, on_disconnected,
  handle_invite,
}
use aipanel.Sip.Calls.Callbacks.{
  on_line, on_call_state, on_call_media_state, on_dtmf_digit, hangup_all,
}
use aipanel.Sip.Calls.Others.{
  held, reports, Moves, hangup-Moves, disconnect-Moves, same-Moves, Moves-after,
  handle_invite-Keeps,
}

-- What reaches the router, in the order in which its lock lets it in.
pub data Event : Type 0 where
  invited : Invite → Outside → Event
  state_changed : ℕ → Bool → Bool → Bool → Event
  media_changed : ℕ → Bool → Event
  digit_received : ℕ → List ℕ → Bool → Event
  worker_left : ℕ → Event
  shut_down : Event

module _ (dump : CallContext → Bytes) where
  unfoldable pub apply : Event → Router → Router
  apply (invited i o) r = (handle_invite dump i o r).router
  apply (state_changed call_id is_disconnected sendall unlink) r =
      on_call_state call_id is_disconnected sendall unlink r
  apply (media_changed call_id attaches) r = on_call_media_state call_id attaches r
  apply (digit_received call_id digit sendall) r = on_dtmf_digit call_id digit sendall r
  apply (worker_left call_id) r = worker_initiated_hangup call_id r
  apply shut_down r = hangup_all (record r { shutting_down = true })

  unfoldable pub run : List Event → Router → Router
  run [] r = r
  run (e ∷ es) r = run es (apply e r)

-- An event that is no INVITE with this id.
abbrev IsOther : ℕ → Event → Type 0
IsOther call_id (invited i o) = nat_eq i.call_id call_id ≡ false
IsOther call_id e = Unit {0}

-- An event that ends a call.
abbrev ends : ℕ → Event → Bool
ends call_id (state_changed k is_disconnected sendall unlink) =
    if is_disconnected then nat_eq k call_id else false
ends call_id (worker_left k) = nat_eq k call_id
ends call_id e = false

on_line-same :
    (k : ℕ) (f : Line → Line) (r : Router)
    → ((on_line k f r).calls ≡ r.calls) × ((on_line k f r).ended ≡ r.ended)
on_line-same k f r = ground arith

media-same :
    (k : ℕ) (attaches : Bool) (r : Router)
    → let r' = on_call_media_state k attaches r in (r'.calls ≡ r.calls) × (r'.ended ≡ r.ended)
unfolding on_call_media_state
media-same k attaches r = ground arith

module _ (dump : CallContext → Bytes) (call_id : ℕ) where
  apply-Moves :
      (e : Event) (r : Router)
      → IsOther call_id e
      → Moves call_id (ends call_id e) r (apply dump e r)
  unfolding apply on_call_state on_dtmf_digit hangup_all
  apply-Moves (invited i o) r other = handle_invite-Keeps dump call_id i o other r
  apply-Moves (state_changed k false sendall unlink) r other = same-Moves call_id r r refl refl
  apply-Moves (state_changed k true sendall unlink) r other =
      let hung : Line → Line =
        λ l. record l { bridge = close unlink (send_hangup sendall l.bridge).0 } in
      let same = on_line-same k hung r in
      Moves-after call_id (nat_eq k call_id) r (on_line k hung r)
        (on_disconnected k (on_line k hung r)) same.0 same.1
        (disconnect-Moves call_id k (on_line k hung r))
  apply-Moves (media_changed k attaches) r other =
      same-Moves call_id r (on_call_media_state k attaches r) (media-same k attaches r).0
        (media-same k attaches r).1
  apply-Moves (digit_received k digit sendall) r other =
      let typed : Line → Line = λ l. record l { bridge = send_dtmf digit sendall l.bridge } in
      same-Moves call_id r (on_line k typed r) (on_line-same k typed r).0 (on_line-same k typed r).1
  apply-Moves (worker_left k) r other = hangup-Moves call_id k r
  apply-Moves shut_down r other =
      same-Moves call_id r (hangup_all (record r { shutting_down = true })) refl refl

  abbrev pub ends_among : List Event → Bool
  ends_among [] = false
  ends_among (e ∷ es) = ends call_id e || ends_among es

  run-Moves :
      (es : List Event) (r : Router)
      → All (IsOther call_id) es
      → Moves call_id (ends_among es) r (run dump es r)
  unfolding run
  run-Moves [] r other = same-Moves call_id r r refl refl
  run-Moves (e ∷ es) r other =
      let first = apply-Moves e r other.0 in
      let rest = run-Moves es (apply dump e r) other.1 in
      (
        rest.0 ∙ first.0,
        elim (Bool-cases (ends call_id e)) [
          | inl here ↦ ground (arith, rest.1, first.1)
          | inr later ↦ ground (arith, rest.1, first.1)
        ],
      )

  -- A call that the router has, and that was never reported: after any events but an INVITE with its
  -- id, it is reported exactly once if among them is a disconnection or a hangup of the worker, in
  -- whatever order and however often these come; if there is none, it is not reported, and the router
  -- still has it.
  pub reported_once :
      (es : List Event) (r : Router)
      → All (IsOther call_id) es
      → held call_id r ≡ 1
      → reports call_id r ≡ 0
      → let r' = run dump es r in
        (reports call_id r' ≡ (if ends_among es then 1 else 0))
        × (held call_id r' ≡ (if ends_among es then 0 else 1))
  reported_once es r other there silent =
      let moved = run-Moves es r other in
      elim (Bool-cases (ends_among es)) [
        | inl stops ↦ ground (arith, moved.0, moved.1)
        | inr on ↦ ground (arith, moved.0, moved.1)
      ]
