-- ===== src/Agent/Transcripts/Tests.antt =====
-- A call of two events.
use aipanel.Base.{◌≡◌, refl, [], ◌∷◌, List, none, true, false}
use aipanel.Agent.Transcripts.{
  CallEvent, Got, item, timeout, TranscriptWriter, in_time, cancelled_after, flush, flush_loop,
  stop,
}
use aipanel.Agent.Transcripts.Batches.{written, events_of, Keeps, stop-flushes}

abbrev spoken : CallEvent
spoken = record { ts = 1; event_type = "user_speech"; payload = [] }

abbrev ended : CallEvent
ended = record { ts = 2; event_type = "tool_call"; payload = [] }

abbrev gots : List Got
gots = item spoken true ∷ timeout false ∷ item ended true ∷ []

abbrev fresh : TranscriptWriter
fresh = record { row = none; flushes = [] }

stop-flushes_example :
    Keeps
      (in_time true)
      (written gots)
      (stop "end_call" "DONE" 12 gots (in_time true) true fresh).flushes
stop-flushes_example = stop-flushes "end_call" "DONE" 12 gots (in_time true) true fresh refl

-- Cancelled when it has got the second event, which waits for the next flush.
lost_one :
    events_of (stop "end_call" "DONE" 12 gots (cancelled_after 3) true fresh).flushes ≡ spoken ∷ []
unfolding stop flush_loop flush
lost_one = refl
