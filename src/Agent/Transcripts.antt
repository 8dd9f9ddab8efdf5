-- ===== src/Agent/Transcripts.antt =====
-- workers/src/aipanel_worker/transcript_writer.py: the events of a call on their way to the database. The
-- queue has no bound, so the writer is a function of what the flusher gets from it. A flush is kept with
-- whether the database took it; the rows are those of the flushes that it took.
pub mod Batches
mod Tests
use aipanel.Base.{
  ℕ, zero, suc, ◌+◌, ◌≡◌, String, Text, Bool, true, false, List, [], ◌∷◌, ◌++◌, Option, none, some,
  is_empty, length, take, ltb, leb, if◌then◌else◌,
}

pub record CallEvent : Type 0 where
  pub ts : ℕ
  pub event_type : String
  pub payload : Text

-- A run of `_sync_flush`: whether the database took it, and its rows.
pub record Flush : Type 0 where
  pub taken : Bool
  pub batch : List CallEvent

-- `_flush`; a batch that the database does not take is dropped.
unfoldable pub flush : Bool → List CallEvent → List Flush → List Flush
flush up batch flushes =
    if is_empty batch then flushes else flushes ++ record { taken = up; batch = batch } ∷ []

-- What the flusher gets from the queue: an event, nothing for 250 ms, or the mark of `stop`; `up` says
-- whether the database takes a flush that follows.
pub data Got : Type 0 where
  item : CallEvent → Bool → Got
  timeout mark : Bool → Got

abbrev pub max_batch : ℕ
max_batch = 50

-- `_flush_loop`. It waits without a limit while there is no batch.
pub flush_loop : List Got → List CallEvent → List Flush → List CallEvent × List Flush
flush_loop [] batch flushes = (batch, flushes)
flush_loop (timeout up ∷ gots) batch flushes = flush_loop gots [] (flush up batch flushes)
flush_loop (mark up ∷ gots) batch flushes = ([], flush up batch flushes)
flush_loop (item event up ∷ gots) batch flushes =
    let grown = batch ++ event ∷ [] in
    let flushed = flush_loop gots [] (flush up grown flushes) in
    let kept = flush_loop gots grown flushes in
    if leb max_batch (length grown) then flushed else kept

-- The row of the call, as `start` inserts it and `stop` updates it; text of a path is left out.
pub record CallRow : Type 0 where
  pub deployment_id : String
  pub ended : Option (String × String × ℕ)

pub record TranscriptWriter : Type 0 where
  pub row : Option CallRow
  pub flushes : List Flush

-- `start`; a row with the id or the uniqueid of the call that is there already stays.
unfoldable pub start : String → Bool → TranscriptWriter → TranscriptWriter
start deployment_id up w =
    if up
    then (elim w.row [
      | none ↦ record w { row = some (record { deployment_id = deployment_id; ended = none }) }
      | some row ↦ w
    ])
    else w

abbrev update_call_row : String × String × ℕ → Option CallRow → Option CallRow
update_call_row ended none = none
update_call_row ended (some row) = some (record row { ended = some ended })

-- How the wait for the flusher ends: it gets the mark, behind all that was written, and its flush comes to
-- an end; or after 5 seconds it is cancelled, when it has got only so many of them. Its batch and what is
-- still in the queue are lost, but a flush that a thread has begun goes on.
pub data FlusherEnd : Type 0 where
  in_time : Bool → FlusherEnd
  cancelled_after : ℕ → FlusherEnd

abbrev pub got_until : FlusherEnd → List Got → List Got
got_until (in_time last_up) gots = gots ++ mark last_up ∷ []
got_until (cancelled_after n) gots = take n gots

-- `stop`.
unfoldable pub stop :
    String → String → ℕ → List Got → FlusherEnd → Bool → TranscriptWriter → TranscriptWriter
stop outcome dispo_code duration_sec gots flusher_end up w =
    let flushes = (flush_loop (got_until flusher_end gots) [] w.flushes).1 in
    let row = if up then update_call_row (outcome, dispo_code, duration_sec) w.row else w.row in
    record { row = row; flushes = flushes }
