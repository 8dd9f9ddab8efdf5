-- ===== src/Sip/Calls/Callbacks.antt =====
-- sip/src/aipanel_sip/call_handler.py: the callbacks of _IncomingCall, and hangup_all.
use aipanel.Base.{ℕ, Bool, true, List, [], ◌∷◌, ◌++◌, none, some, map, nat_Key, if◌then◌else◌}
use aipanel.Base.Dict
use aipanel.Base.Dict.{Dict}
use aipanel.Sip.Bridge.{send_hangup, send_dtmf, attach_media, close}
use aipanel.Sip.Calls.{Line, Router, on_disconnected}

-- The callbacks of a call that was answered.
abbrev pub on_line : ℕ → (Line → Line) → Router → Router
on_line call_id f r = elim (Dict.get call_id r.lines) [
  | none ↦ r
  | some l ↦ record r { lines = Dict.put call_id (f l) r.lines }
]

-- `onCallState`: only DISCONNECTED does something.
unfoldable pub on_call_state : ℕ → Bool → Bool → Bool → Router → Router
unfolding on_disconnected
on_call_state call_id is_disconnected sendall unlink r =
    if is_disconnected
    then on_disconnected call_id (
        on_line call_id (λ l. record l { bridge = close unlink (send_hangup sendall l.bridge).0 })
          r)
    else r

-- `onCallMediaState`: the first active audio, with whether PJSIP attaches it; if not, the call is
-- hung up.
unfoldable pub on_call_media_state : ℕ → Bool → Router → Router
on_call_media_state call_id attaches r = elim (Dict.get call_id r.lines) [
  | none ↦ r
  | some l ↦
      if l.media_attached
      then r
      else if attaches
      then record r {
        lines =
            Dict.put call_id (record l { bridge = attach_media l.bridge; media_attached = true })
              r.lines;
      }
      else record r { byes = r.byes ++ l.number ∷ [] }
]

unfoldable pub on_dtmf_digit : ℕ → List ℕ → Bool → Router → Router
on_dtmf_digit call_id digit sendall r =
    on_line call_id (λ l. record l { bridge = send_dtmf digit sendall l.bridge }) r

-- `hangup_all`: BYE to every call in the table, which keeps them.
unfoldable pub hangup_all : Router → Router
hangup_all r = record r { byes = r.byes ++ map (λ entry. entry.1) r.calls }
