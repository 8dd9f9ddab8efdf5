-- ===== src/Agent/AudioOut/Tests.antt =====
-- Speech in concrete situations.
use aipanel.Base.{◌≡◌, ◌⊎◌, refl, true, false, List, [], ◌∷◌, length, replicate}
use aipanel.Sip.Frame.Wire.{Bytes}
use aipanel.Agent.AudioOut.{
  Playout, writer_takes, answered, SpeechRequest, enqueue_audio_bytes, stream_tts, speak,
}
use aipanel.Agent.AudioOut.Frames.{undisturbed, concat, stream_tts-enqueue_audio_bytes}
use aipanel.Agent.AudioOut.Queue.{barged_speech, speak-silent}

abbrev fresh : Playout
fresh = record {
  frames_out = [];
  audio_drops = 0;
  cancelled = false;
  stopped = false;
  is_speaking = false;
  taken = [];
}

-- 450 bytes in two chunks.
abbrev chunks : List Bytes
chunks = replicate 200 1 ∷ replicate 250 2 ∷ []

stream_tts-enqueue_audio_bytes_example :
    stream_tts
      (answered 200 (record { chunks = undisturbed chunks; last = []; fails = false }))
      fresh
    ≡ (false, enqueue_audio_bytes (concat chunks) fresh)
stream_tts-enqueue_audio_bytes_example = stream_tts-enqueue_audio_bytes chunks fresh (refl, refl)

-- They make two frames.
two_frames : length (enqueue_audio_bytes (concat chunks) fresh).frames_out ≡ 2
unfolding enqueue_audio_bytes
two_frames = refl

-- A greeting during which the caller barges in, and the end.
abbrev greeting : SpeechRequest
greeting =
    barged_speech (([], replicate 640 1) ∷ []) (writer_takes ∷ []) [] (replicate 320 2) [] [] false

speak-silent_example :
    ((speak greeting fresh).frames_out ≡ []) ⊎ ((speak greeting fresh).stopped ≡ true)
speak-silent_example =
    speak-silent (([], replicate 640 1) ∷ []) [] (writer_takes ∷ []) [] [] (replicate 320 2) false
      fresh
