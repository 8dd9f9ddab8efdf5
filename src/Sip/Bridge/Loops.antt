-- ===== src/Sip/Bridge/Loops.antt =====
-- The reader and writer threads of AudioBridge.
use aipanel.Base.{
  ℕ, zero, suc, ◌+◌, Bool, not, ◌&&◌, [], ◌∷◌, ◌++◌, Option, none, some, nat_eq, is_empty,
  if◌then◌else◌,
}
use aipanel.Sip.Frame.Wire.{Bytes}
use aipanel.Sip.Frame.Stream.{Socket}
use aipanel.Sip.Frame.{
  Frame, read_frame, frame_audio_in, frame_audio_out, frame_hangup, frame_dtmf, frame_control,
}
use aipanel.Sip.Bridge.{
  Bridge, deque_append, make_room, count_drop, popleft, delivered, failed, encode_failed, send,
}

-- What the loop does after a round: read on, return, or end by an exception that nobody catches.
pub data Next : Type 0 where
  again return escape : Next

abbrev push_outbound : Bytes → Bridge → Bridge
push_outbound payload b = if is_empty payload then b else record b {
  outbound = deque_append (make_room b.outbound) payload;
  dropped = count_drop b.outbound b.dropped;
}

abbrev pass_dtmf : Bytes → Bridge → Bridge
pass_dtmf payload b = if is_empty payload then b else record b { dtmf = b.dtmf ++ payload ∷ [] }

-- `is_refused` says of which payloads the decoding raises UnicodeDecodeError or JSONDecodeError, which are
-- caught. Of any other the call of the logger raises TypeError, since it gets `event` twice, or the decoding
-- raises something else.
module _ (is_refused : Bytes → Bool) where
  -- One frame of `_read_loop`. A type that is not known is only logged.
  unfoldable pub on_frame : Frame → Bridge → Bridge × Next
  on_frame (ftype, payload) b =
      if nat_eq ftype frame_audio_out
      then (push_outbound payload b, again)
      else if nat_eq ftype frame_hangup
      then (record b { hangups = b.hangups + 1 }, return)
      else if nat_eq ftype frame_dtmf
      then (pass_dtmf payload b, again)
      else if nat_eq ftype frame_control && not (is_refused payload)
      then (b, escape)
      else (b, again)

  -- `frame is None`: the worker is gone, which counts as a hangup.
  unfoldable pub on_read : Option Frame → Bridge → Bridge × Next
  unfolding on_frame
  on_read none b = (record b { hangups = b.hangups + 1 }, return)
  on_read (some frame) b = on_frame frame b

  -- `_read_loop`, while no other thread runs, and how it ends. None means that the fuel, in frames, ran out.
  unfoldable pub read_loop : ℕ → Bridge → Socket → Option (Bridge × Next)
  unfolding on_read
  read_loop zero b s = none
  read_loop (suc fuel) b s =
      let (frame, rest) = read_frame s in
      let (b', next) = on_read frame b in
      let more = read_loop fuel b' rest in
      if b.shutdown
      then some (b, return)
      else (elim next [ again ↦ more | return ↦ some (b', return) | escape ↦ some (b', escape) ])

-- One round of `_write_loop`: `again` also where it only waits for 5 ms.
unfoldable pub write_step : Bool → Bridge → Bridge × Next
unfolding send
write_step sendall b =
    if b.shutdown
    then (b, return)
    else (let (front, rest) = popleft b.inbound in
        elim front [
          | none ↦ (b, again)
          | some frame ↦
              let (b', result) = send frame_audio_in frame sendall (record b { inbound = rest }) in
              (b', elim result [ delivered ↦ again | failed ↦ return | encode_failed ↦ return ])
        ])
