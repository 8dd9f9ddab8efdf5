-- ===== src/Sip/Calls/Tests.antt =====
-- The router on concrete calls.
use aipanel.Base.{◌≡◌, refl, codes, true, false, List, [], ◌∷◌, nat_Key, if◌then◌else◌}
use aipanel.Base.Dict
use aipanel.Sip.Frame.Wire.{Bytes}
use aipanel.Sip.Frame.{encode_frame, ok, frame_control}
use aipanel.Sip.Bridge.{connected}
use aipanel.Sip.Calls.{CallContext, Router, Invite, Outside, handle_invite, context}
use aipanel.Sip.Calls.Invites.{IsSettled, handle_invite-IsSettled}
use aipanel.Sip.Calls.Others.{held, reports}
use aipanel.Sip.Calls.Settled.{
  Event, state_changed, worker_left, digit_received, shut_down, run, ends_among, reported_once,
  invited,
}

abbrev dump : CallContext → Bytes
dump c = codes "{}"

abbrev router : Router
router = record {
  calls = [];
  shutting_down = false;
  lines = [];
  answers = [];
  byes = [];
  published = [];
  ended = [];
}

abbrev call : Invite
call = record {
  call_id = 11;
  number = 3;
  deployment_id = 7;
  phone_login = "8001";
  raw_msg = codes "INVITE sip:8001 SIP/2.0\r\nX-VICIdial-LeadId: 4711\r\n\r\n";
}

abbrev fine : Outside
fine = record {
  path = false;
  bind = true;
  publish = true;
  accept = connected;
  create = true;
  sendall = true;
  answer = true;
  unlink = true;
  early_hangup = true;
}

context_fits :
    encode_frame frame_control (dump (context call)) ≡ ok (0 ∷ 0 ∷ 0 ∷ 3 ∷ 0x10 ∷ codes "{}")
unfolding encode_frame
context_fits = refl

handle_invite-IsSettled_example : IsSettled call router (handle_invite dump call fine router)
unfolding Dict.get
handle_invite-IsSettled_example =
    handle_invite-IsSettled dump call fine router (0 ∷ 0 ∷ 0 ∷ 3 ∷ 0x10 ∷ codes "{}") refl
      context_fits

abbrev busy : Router
busy = record router { calls = (11, 3) ∷ (12, 4) ∷ [] }

abbrev hanging_up : List Event
hanging_up =
    digit_received 11 (codes "5") true
    ∷ invited (record call { call_id = 13; number = 9 }) fine
    ∷ worker_left 11
    ∷ shut_down
    ∷ state_changed 11 true true true
    ∷ []

reported_once_example :
    let r' = run dump hanging_up busy in
    (reports 11 r' ≡ (if ends_among dump 11 hanging_up then 1 else 0))
    × (held 11 r' ≡ (if ends_among dump 11 hanging_up then 0 else 1))
unfolding Dict.get
reported_once_example =
    reported_once dump 11 hanging_up busy (tt, (refl, (tt, (tt, (tt, tt))))) refl refl
