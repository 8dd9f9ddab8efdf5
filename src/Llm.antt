-- ===== src/Llm.antt =====
-- llm-server/src/aipanel_llm/main.py: the proxy before the server of the language model. A request has a number; its
-- body is read, it waits for the answer of the server, and then the answer is streamed. What the server and the clients do
-- are events; times are half seconds. The texts of the answers and the metrics are left out.
pub mod Inflight
mod Tests
use aipanel.Base.{
  ℕ, ◌+◌, ◌-◌, ◌≡◌, String, Text, Bool, true, false, not, ◌&&◌, ◌||◌, List, [], ◌∷◌, Option, none,
  some, is_some, nat_eq, length, if◌then◌else◌, ◌==◌, string_Key,
}

pub record State : Type 0 where
  pub loaded_at : Option ℕ
  pub vllm_is_alive : Bool
  pub shutting_down : Bool
  pub inflight : ℕ
  pub reading : List ℕ
  pub sending : List ℕ
  pub streaming : List ℕ

-- `_strip_headers`; `lower` is Python's.
abbrev hop_by_hop : List String
hop_by_hop =
    "connection" ∷ "keep-alive" ∷ "proxy-authenticate" ∷ "proxy-authorization" ∷ "te" ∷ "trailer"
    ∷ "transfer-encoding" ∷ "upgrade" ∷ "host" ∷ []

abbrev pub one_of : String → List String → Bool
one_of k [] = false
one_of k (h ∷ hs) = h == k || one_of k hs

pub strip_headers : (String → String) → List (String × String) → List (String × String)
strip_headers lower [] = []
strip_headers lower ((k, v) ∷ headers) =
    if one_of (lower k) hop_by_hop
    then strip_headers lower headers
    else (k, v) ∷ strip_headers lower headers

-- `health`, and the gate before every other route.
pub data Reply : Type 0 where
  ok passed : Reply
  http_error : ℕ → Reply

unfoldable pub health : State → Reply
health s = if not (is_some s.loaded_at) || not s.vllm_is_alive then http_error 503 else ok

abbrev pub take_out : ℕ → List ℕ → Option (List ℕ)
take_out id [] = none
take_out id (i ∷ ids) =
    if nat_eq i id
    then some ids
    else (elim (take_out id ids) [ none ↦ none | some rest ↦ some (i ∷ rest) ])

-- The gate, behind which the body of the request is read.
pub admit : ℕ → State → Reply × State
admit id s =
    if s.shutting_down then (http_error 503, s) else (passed, record s { reading = id ∷ s.reading })

-- The body is there, and the request is counted and sent to the server.
abbrev pub counted : ℕ → Option (List ℕ) → State → State
counted id none s = s
counted id (some ids) s = record s {
  reading = ids;
  inflight = s.inflight + 1;
  sending = id ∷ s.sending;
}

pub send : ℕ → State → State
send id s = counted id (take_out id s.reading) s

-- The client leaves while its body is read.
abbrev pub left : Option (List ℕ) → State → State
left none s = s
left (some ids) s = record s { reading = ids }

pub leave : ℕ → State → State
leave id s = left (take_out id s.reading) s

-- The server cannot be reached.
abbrev pub refused : Option (List ℕ) → State → State
refused none s = s
refused (some ids) s = record s { inflight = s.inflight - 1; sending = ids }

pub upstream_error : ℕ → State → State
upstream_error id s = refused (take_out id s.sending) s

-- The server answers, and the stream begins.
abbrev pub answered : ℕ → Option (List ℕ) → State → State
answered id none s = s
answered id (some ids) s = record s { sending = ids; streaming = id ∷ s.streaming }

pub respond : ℕ → State → State
respond id s = answered id (take_out id s.sending) s

-- A cancellation is no HTTPError: the count stays.
abbrev pub dropped : Option (List ℕ) → State → State
dropped none s = s
dropped (some ids) s = record s { sending = ids }

unfoldable pub cancel : ℕ → State → State
cancel id s = dropped (take_out id s.sending) s

-- The `finally` of `_stream`, however the stream ends.
abbrev pub closed : Option (List ℕ) → State → State
closed none s = s
closed (some ids) s = record s { inflight = s.inflight - 1; streaming = ids }

pub end_stream : ℕ → State → State
end_stream id s = closed (take_out id s.streaming) s

pub data Event : Type 0 where
  arrives sends leaves fails cancels answers ends : ℕ → Event

unfoldable pub step : Event → State → State
step (arrives id) s = (admit id s).1
step (sends id) s = send id s
step (leaves id) s = leave id s
step (fails id) s = upstream_error id s
step (cancels id) s = cancel id s
step (answers id) s = respond id s
step (ends id) s = end_stream id s

unfoldable pub steps : List Event → State → State
steps [] s = s
steps (e ∷ es) s = steps es (step e s)

abbrev pub all_steps : List (List Event) → State → State
all_steps [] s = s
all_steps (events ∷ rounds) s = all_steps rounds (steps events s)

-- The end of `lifespan`: what happens in each of the half seconds that it waits; 60 are the most.
unfoldable pub drain : List (List Event) → State → State
drain [] s = s
drain (events ∷ rounds) s =
    let rest = drain rounds (steps events s) in if nat_eq s.inflight 0 then s else rest

pub shut_down : List (List Event) → State → State
shut_down rounds s = drain rounds (record s { shutting_down = true })
