-- ===== src/Llm/Tests.antt =====
-- A proxy that is shut down while one request waits and another is streamed.
use aipanel.Base.{length, ◌≤◌, ◌≡◌, refl, true, false, List, [], ◌∷◌, some, arith, ◌⊎◌, string_Key}
use aipanel.Llm.{
  State, Event, arrives, answers, ends, shut_down, all_steps, steps, step, drain, admit, respond,
  end_stream, strip_headers,
}
use aipanel.Llm.Inflight.{open_requests, shut_down-IsServed}

abbrev busy : State
busy = record {
  loaded_at = some 0;
  vllm_is_alive = true;
  shutting_down = false;
  inflight = 2;
  reading = 5 ∷ [];
  sending = 1 ∷ [];
  streaming = 2 ∷ [];
}

-- A third request is refused, and the two are served.
abbrev rounds : List (List Event)
rounds = (arrives 3 ∷ ends 2 ∷ []) ∷ (answers 1 ∷ ends 1 ∷ []) ∷ [] ∷ (arrives 4 ∷ []) ∷ []

drained : (shut_down rounds busy).inflight ≡ 0
unfolding shut_down drain steps step admit respond end_stream
drained = refl

-- The one whose body is read is not waited for.
left_behind : (shut_down rounds busy).reading ≡ 5 ∷ []
unfolding shut_down drain steps step admit respond end_stream
left_behind = refl

shut_down-IsServed_example :
    let gated = record busy { shutting_down = true } in
    ((open_requests (shut_down rounds busy) ≡ 0) ⊎ (shut_down rounds busy ≡ all_steps rounds gated))
    × (length (shut_down rounds busy).reading ≤ length busy.reading)
shut_down-IsServed_example = shut_down-IsServed rounds busy (omega arith)

stripped :
    strip_headers (λ k. k) (("host", "a") ∷ ("accept", "b") ∷ ("te", "c") ∷ [])
    ≡ ("accept", "b") ∷ []
unfolding strip_headers
stripped = refl
