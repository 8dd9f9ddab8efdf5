-- ===== src/Agent/Jobs.antt =====
-- workers/src/aipanel_worker/main.py: the worker processes that take calls from one Redis. A worker has a
-- number; a call that it handles is a task that holds one permit of its semaphore and the reservation of
-- the call. The waits and the drain at the end are left out.
pub mod Tasks
pub mod Exclusive
mod Tests
use aipanel.Base.{
  ℕ, zero, suc, ◌+◌, ◌-◌, ◌≡◌, Text, Bool, true, false, not, ◌&&◌, ◌||◌, List, [], ◌∷◌, ◌++◌,
  Option, none, some, is_empty, nat_eq, if◌then◌else◌, ◌==◌, nat_Key,
}
use aipanel.Base.Texts.{same_text}
use aipanel.Agent.Session.Config.{Value, Object, CallJob, from_payload}

-- A payload: a JSON object, a text, which may be JSON again, `null`, another value of JSON, or no JSON.
pub data Payload : Type 0 where
  object : Object → Payload
  quoted : Payload → Payload
  null other_value invalid : Payload

-- What `next_job` gives to its caller.
pub data Pulled : Type 0 where
  raises nothing : Pulled
  got_object : Object → Pulled
  got_text : Payload → Pulled
  got_other : Pulled

-- `_decode`, with what `json.loads` makes of the payload.
unfoldable pub decode : Payload → Pulled
decode (object raw) = got_object raw
decode (quoted inner) = got_text inner
decode null = nothing
decode other_value = got_other
decode invalid = nothing

-- How Redis answers: BRPOP with none for an error or a timeout; the group with true unless the answer is
-- an error other than BUSYGROUP; XREADGROUP with none for an error or no entry. The fields of an entry
-- are texts.
pub record RedisAnswers : Type 0 where
  pub brpop : Option Payload
  pub group_ok : Bool
  pub xreadgroup : Option Object

pub record JobSource : Type 0 where
  pub stream_initialised : Bool

abbrev read_stream : Option Object → Pulled
read_stream none = nothing
read_stream (some fields) = got_object fields

-- `_ensure_stream_group` and the rest of `next_job`.
unfoldable next_stream : RedisAnswers → JobSource → Pulled × JobSource
next_stream r source =
    if source.stream_initialised
    then (read_stream r.xreadgroup, source)
    else if r.group_ok
    then (read_stream r.xreadgroup, record { stream_initialised = true })
    else (raises, source)

abbrev next_of : RedisAnswers → JobSource → Option Payload → Pulled × JobSource
next_of r source none = next_stream r source
next_of r source (some payload) = (decode payload, source)

unfoldable next_job : RedisAnswers → JobSource → Pulled × JobSource
next_job r source = next_of r source r.brpop

abbrev pub member : Text → List Text → Bool
member c [] = false
member c (d ∷ ds) = same_text d c || member c ds

abbrev pub without : Text → List Text → List Text
without c [] = []
without c (d ∷ ds) = if same_text d c then without c ds else d ∷ without c ds

-- The keys `calls:active:…` of Redis, the tasks of all workers, and of each its permits and whether its
-- supervisor has crashed.
pub record System : Type 0 where
  pub reserved : List Text
  pub handled : List (ℕ × Text)
  pub permits : ℕ → ℕ
  pub crashed : ℕ → Bool

-- `dict`-like updates of what each worker has.
abbrev pub set {ℓ} : {A : Type ℓ} → ℕ → A → (ℕ → A) → ℕ → A
set i a f j = if nat_eq i j then a else f j

abbrev pub crash : ℕ → System → System
crash i s = record s { crashed = set i true s.crashed; permits = set i (s.permits i - 1) s.permits }

-- `_reserve`, and the task: the permit that was acquired stays with it.
pub reserve_and_run : ℕ → Text → System → System
reserve_and_run i call_id s = if member call_id s.reserved then s else record s {
  reserved = call_id ∷ s.reserved;
  handled = (i, call_id) ∷ s.handled;
  permits = set i (s.permits i - 1) s.permits;
}

-- A job that was pulled: a permit that is released at once is not counted. `redis_up` says whether Redis
-- answers the reservation.
pub take_job : ℕ → Bool → CallJob → System → System
take_job i redis_up job s =
    if is_empty job.call_id || is_empty job.sip_socket_path
    then s
    else if redis_up
    then reserve_and_run i job.call_id s
    else crash i s

-- A text is read as JSON once more: what is no JSON is refused, and what is no object has no `get`,
-- which ends the supervisor.
abbrev on_text : (Value → Text) → ℕ → Bool → Payload → System → System
on_text show i redis_up (object raw) s = take_job i redis_up (from_payload show raw) s
on_text show i redis_up invalid s = s
on_text show i redis_up (quoted inner) s = crash i s
on_text show i redis_up null s = crash i s
on_text show i redis_up other_value s = crash i s

abbrev pub on_pulled : (Value → Text) → ℕ → Bool → Pulled → System → System
on_pulled show i redis_up raises s = s
on_pulled show i redis_up nothing s = s
on_pulled show i redis_up (got_object raw) s = take_job i redis_up (from_payload show raw) s
on_pulled show i redis_up (got_text inner) s = on_text show i redis_up inner s
on_pulled show i redis_up got_other s = crash i s

-- A round of `_supervisor`, once a permit is there.
pub supervise : (Value → Text) → ℕ → Bool → Pulled → System → System
supervise show i redis_up pulled s =
    if s.crashed i || nat_eq (s.permits i) 0 then s else on_pulled show i redis_up pulled s

abbrev pub take_out : ℕ → Text → List (ℕ × Text) → Option (List (ℕ × Text))
take_out i c [] = none
take_out i c ((j, d) ∷ tasks) =
    if nat_eq i j && same_text d c
    then some tasks
    else (elim (take_out i c tasks) [ none ↦ none | some rest ↦ some ((j, d) ∷ rest) ])

-- `_release`: without Redis the key stays until it runs out.
abbrev release : Bool → Text → List Text → List Text
release redis_up c reserved = if redis_up then without c reserved else reserved

abbrev pub finished : ℕ → Bool → Text → Option (List (ℕ × Text)) → System → System
finished i redis_up c none s = s
finished i redis_up c (some tasks) s = record s {
  reserved = release redis_up c s.reserved;
  handled = tasks;
  permits = set i (s.permits i + 1) s.permits;
}

-- The end of a task, however the call went: `_release`, and the permit.
unfoldable pub finish : ℕ → Bool → Text → System → System
finish i redis_up c s = finished i redis_up c (take_out i c s.handled) s

-- The key of a reservation runs out at `reservation_ttl_sec`.
abbrev run_out : Text → System → System
run_out c s = record s { reserved = without c s.reserved }

-- What may happen, one thing after another.
pub data Step : Type 0 where
  pulls : ℕ → Bool → Pulled → Step
  finishes : ℕ → Bool → Text → Step
  runs_out : Text → Step

pub step : (Value → Text) → Step → System → System
step show (pulls i redis_up pulled) s = supervise show i redis_up pulled s
step show (finishes i redis_up c) s = finish i redis_up c s
step show (runs_out c) s = run_out c s

pub steps : (Value → Text) → List Step → System → System
steps show [] s = s
steps show (e ∷ es) s = steps show es (step show e s)
