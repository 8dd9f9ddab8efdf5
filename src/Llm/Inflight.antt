-- ===== src/Llm/Inflight.antt =====
-- The count of the requests in llm-server/src/aipanel_llm/main.py, on which the shutdown waits.
use aipanel.Base.{
  ℕ, suc, ◌+◌, ◌≡◌, ◌≤◌, refl, sym, subst, ap, ◌∙◌, true, List, [], ◌∷◌, Option, none, some, nat_eq,
  length, if-true, if-false, either_way, arith, Bool-cases, inl, inr, ◌⊎◌,
}
use aipanel.Llm.{
  State, Reply, take_out, admit, refused, upstream_error, answered, respond, closed, end_stream,
  Event, arrives, sends, leaves, counted, left, send, leave, fails, cancels, dropped, cancel,
  all_steps, answers, ends, step, steps, drain, shut_down, http_error, passed,
}

-- The requests that wait for the server or are streamed.
abbrev pub open_requests : State → ℕ
open_requests s = length s.sending + length s.streaming

-- The count misses none of them.
abbrev IsCounted : State → Type 0
IsCounted s = open_requests s ≤ s.inflight

abbrev size_or : ℕ → Option (List ℕ) → ℕ
size_or n none = n
size_or n (some ids) = suc (length ids)

abbrev with_head : ℕ → Option (List ℕ) → Option (List ℕ)
with_head i none = none
with_head i (some rest) = some (i ∷ rest)

size-with_head :
    (n i : ℕ) (o : Option (List ℕ)) → size_or n o ≡ n → size_or (suc n) (with_head i o) ≡ suc n
size-with_head n i none e = refl
size-with_head n i (some rest) e = omega (arith, e)

length-take_out : (id : ℕ) (ids : List ℕ) → size_or (length ids) (take_out id ids) ≡ length ids
length-take_out id [] = refl
length-take_out id (i ∷ ids) =
    either_way (λ o. size_or (suc (length ids)) o ≡ suc (length ids)) (nat_eq i id) (some ids)
      (with_head i (take_out id ids)) refl
      (size-with_head (length ids) i (take_out id ids) (length-take_out id ids))

counted-IsCounted :
    (id : ℕ) (o : Option (List ℕ)) (s : State) → IsCounted s → IsCounted (counted id o s)
counted-IsCounted id none s v = v
counted-IsCounted id (some ids) s v = omega (arith, v)

left-IsCounted : (o : Option (List ℕ)) (s : State) → IsCounted s → IsCounted (left o s)
left-IsCounted none s v = v
left-IsCounted (some ids) s v = v

refused-IsCounted :
    (o : Option (List ℕ)) (s : State)
    → size_or (length s.sending) o ≡ length s.sending
    → IsCounted s
    → IsCounted (refused o s)
refused-IsCounted none s e v = v
refused-IsCounted (some ids) s e v = omega (arith, e, v)

dropped-IsCounted :
    (o : Option (List ℕ)) (s : State)
    → size_or (length s.sending) o ≡ length s.sending
    → IsCounted s
    → IsCounted (dropped o s)
dropped-IsCounted none s e v = v
dropped-IsCounted (some ids) s e v = omega (arith, e, v)

answered-IsCounted :
    (id : ℕ) (o : Option (List ℕ)) (s : State)
    → size_or (length s.sending) o ≡ length s.sending
    → IsCounted s
    → IsCounted (answered id o s)
answered-IsCounted id none s e v = v
answered-IsCounted id (some ids) s e v = omega (arith, e, v)

closed-IsCounted :
    (o : Option (List ℕ)) (s : State)
    → size_or (length s.streaming) o ≡ length s.streaming
    → IsCounted s
    → IsCounted (closed o s)
closed-IsCounted none s e v = v
closed-IsCounted (some ids) s e v = omega (arith, e, v)

step-IsCounted : (e : Event) (s : State) → IsCounted s → IsCounted (step e s)
unfolding step admit send leave upstream_error cancel respond end_stream
step-IsCounted (arrives id) s v =
    either_way (λ (r : Reply × State). IsCounted r.1) s.shutting_down (http_error 503, s)
      (passed, record s { reading = id ∷ s.reading }) v v
step-IsCounted (sends id) s v = counted-IsCounted id (take_out id s.reading) s v
step-IsCounted (leaves id) s v = left-IsCounted (take_out id s.reading) s v
step-IsCounted (fails id) s v =
    refused-IsCounted (take_out id s.sending) s (length-take_out id s.sending) v
step-IsCounted (cancels id) s v =
    dropped-IsCounted (take_out id s.sending) s (length-take_out id s.sending) v
step-IsCounted (answers id) s v =
    answered-IsCounted id (take_out id s.sending) s (length-take_out id s.sending) v
step-IsCounted (ends id) s v =
    closed-IsCounted (take_out id s.streaming) s (length-take_out id s.streaming) v

steps-IsCounted : (es : List Event) (s : State) → IsCounted s → IsCounted (steps es s)
unfolding steps
steps-IsCounted [] s v = v
steps-IsCounted (e ∷ es) s v = steps-IsCounted es (step e s) (step-IsCounted e s v)

-- The gate is shut, and at most so many bodies are being read.
abbrev IsGated : ℕ → State → Type 0
IsGated n s = (s.shutting_down ≡ true) × (length s.reading ≤ n)

counted-IsGated :
    (n id : ℕ) (o : Option (List ℕ)) (s : State)
    → size_or (length s.reading) o ≡ length s.reading
    → IsGated n s
    → IsGated n (counted id o s)
counted-IsGated n id none s e g = g
counted-IsGated n id (some ids) s e (shut, le) = (shut, omega (arith, e, le))

left-IsGated :
    (n : ℕ) (o : Option (List ℕ)) (s : State)
    → size_or (length s.reading) o ≡ length s.reading
    → IsGated n s
    → IsGated n (left o s)
left-IsGated n none s e g = g
left-IsGated n (some ids) s e (shut, le) = (shut, omega (arith, e, le))

-- What happens behind the gate leaves it and the bodies alone.
refused-IsGated : (n : ℕ) (o : Option (List ℕ)) (s : State) → IsGated n s → IsGated n (refused o s)
refused-IsGated n none s g = g
refused-IsGated n (some ids) s g = g

dropped-IsGated : (n : ℕ) (o : Option (List ℕ)) (s : State) → IsGated n s → IsGated n (dropped o s)
dropped-IsGated n none s g = g
dropped-IsGated n (some ids) s g = g

answered-IsGated :
    (n id : ℕ) (o : Option (List ℕ)) (s : State) → IsGated n s → IsGated n (answered id o s)
answered-IsGated n id none s g = g
answered-IsGated n id (some ids) s g = g

closed-IsGated : (n : ℕ) (o : Option (List ℕ)) (s : State) → IsGated n s → IsGated n (closed o s)
closed-IsGated n none s g = g
closed-IsGated n (some ids) s g = g

step-IsGated : (n : ℕ) (e : Event) (s : State) → IsGated n s → IsGated n (step e s)
unfolding step admit send leave upstream_error cancel respond end_stream
step-IsGated n (arrives id) s (shut, le) =
    subst (λ (r : Reply × State). IsGated n r.1)
      (sym (
        if-true s.shutting_down (http_error 503, s) (passed, record s { reading = id ∷ s.reading })
          shut))
      (shut, le)
step-IsGated n (sends id) s g =
    counted-IsGated n id (take_out id s.reading) s (length-take_out id s.reading) g
step-IsGated n (leaves id) s g =
    left-IsGated n (take_out id s.reading) s (length-take_out id s.reading) g
step-IsGated n (fails id) s g = refused-IsGated n (take_out id s.sending) s g
step-IsGated n (cancels id) s g = dropped-IsGated n (take_out id s.sending) s g
step-IsGated n (answers id) s g = answered-IsGated n id (take_out id s.sending) s g
step-IsGated n (ends id) s g = closed-IsGated n (take_out id s.streaming) s g

steps-IsGated : (n : ℕ) (es : List Event) (s : State) → IsGated n s → IsGated n (steps es s)
unfolding steps
steps-IsGated n [] s g = g
steps-IsGated n (e ∷ es) s g = steps-IsGated n es (step e s) (step-IsGated n e s g)

drain-IsGated :
    (n : ℕ) (rounds : List (List Event)) (s : State) → IsGated n s → IsGated n (drain rounds s)
unfolding drain
drain-IsGated n [] s g = g
drain-IsGated n (events ∷ rounds) s g =
    either_way (IsGated n) (nat_eq s.inflight 0) s (drain rounds (steps events s)) g
      (drain-IsGated n rounds (steps events s) (steps-IsGated n events s g))

drain-IsServed :
    (rounds : List (List Event)) (s : State)
    → IsCounted s
    → (open_requests (drain rounds s) ≡ 0) ⊎ (drain rounds s ≡ all_steps rounds s)
unfolding drain
drain-IsServed [] s v = inr refl
drain-IsServed (events ∷ rounds) s v = elim (Bool-cases (nat_eq s.inflight 0)) [
  | inl none_left ↦ inl (
      ap open_requests (if-true (nat_eq s.inflight 0) s (drain rounds (steps events s)) none_left)
      ∙ ground (arith, none_left, v))
  | inr busy ↦
      let waits = if-false (nat_eq s.inflight 0) s (drain rounds (steps events s)) busy in
      elim (drain-IsServed rounds (steps events s) (steps-IsCounted events s v)) [
        | inl served ↦ inl (ap open_requests waits ∙ served)
        | inr late ↦ inr (waits ∙ late)
      ]
]

-- Where the count is at least that of the requests that wait for the server or are streamed, and whatever
-- happens while the shutdown waits: it goes on only when there are none of these any more, or when all
-- the half seconds have passed. A request whose body is still being read is not counted and may be open
-- then, but there are no more of them than when the shutdown began: nothing passes the gate.
pub shut_down-IsServed :
    (rounds : List (List Event)) (s : State)
    → IsCounted s
    → let gated = record s { shutting_down = true } in
      ((open_requests (shut_down rounds s) ≡ 0) ⊎ (shut_down rounds s ≡ all_steps rounds gated))
      × (length (shut_down rounds s).reading ≤ length s.reading)
unfolding shut_down
shut_down-IsServed rounds s v =
    let gated = record s { shutting_down = true } in
    (
      drain-IsServed rounds gated v,
      (drain-IsGated (length s.reading) rounds gated (refl, omega arith)).1,
    )
