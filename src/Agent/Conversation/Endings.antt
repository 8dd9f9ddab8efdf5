-- ===== src/Agent/Conversation/Endings.antt =====
-- How a conversation of workers/src/aipanel_worker/conversation.py ends.
use aipanel.Base.{
  ℕ, ◌≡◌, refl, sym, ◌∙◌, subst, Text, Bool, true, false, Bool-cases, List, [], ◌∷◌, ◌++◌, Option,
  none, some, inl, inr, ◌⊎◌, is_empty, if◌then◌else◌, if-true, if-false, either_way, ◌==◌,
  string_Key, arith,
}
use aipanel.Agent.Tools.{ToolResult, ViciPost, Args, dispatch}
use aipanel.Agent.Conversation.{
  ToolCall, Settings, Speech, Talk, Turn, request, enqueue_speech, inject_filler, say, say_filled,
  note_result, end_with, follow_up, run_calls, handle_llm_response, answer, next_turn, run, user,
  assistant_calls, fallback_apology, llm_failure,
}

-- The texts that are asked for as the last words of the call.
abbrev last_words : List Speech → List Text
last_words [] = []
last_words (s ∷ speech) = if s.is_terminal then s.text ∷ last_words speech else last_words speech

-- A request more, where there were no last words.
last_words-request :
    (xs : List Speech) (s : Speech)
    → last_words xs ≡ []
    → last_words (xs ++ s ∷ []) ≡ (if s.is_terminal then s.text ∷ [] else [])
last_words-request [] s none_yet = refl
last_words-request (x ∷ xs) s none_yet = elim (Bool-cases x.is_terminal) [
  | inl last ↦ absurd (ground (arith, last, none_yet))
  | inr other ↦
      if-false x.is_terminal _ _ other
      ∙ last_words-request xs s (sym (if-false x.is_terminal _ _ other) ∙ none_yet)
]

-- The conversation goes on: nothing has ended it, and no last words were spoken.
pub record IsOpen (t : Talk) : Type 0 where
  pub no_result : t.terminal_result ≡ none
  pub going : t.call_ended ≡ false
  pub no_last_words : last_words t.speech ≡ []

-- A result that ends the call is there, and its words, if it has any, are the last words, once.
pub record IsDone (t : Talk) : Type 0 where
  pub result : ToolResult
  pub has_result : t.terminal_result ≡ some result
  pub spoken_once : last_words t.speech ≡ (if is_empty result.speak then [] else result.speak ∷ [])

-- What a request of speech leaves of a conversation without last words.
enqueue-IsOpen : (text : Text) (t : Talk) → IsOpen t → IsOpen (enqueue_speech text false t)
unfolding enqueue_speech
enqueue-IsOpen text t v = elim (Bool-cases (is_empty text)) [
  | inl silent ↦ subst IsOpen (sym (if-true (is_empty text) t _ silent)) v
  | inr speaks ↦ subst IsOpen (sym (if-false (is_empty text) t _ speaks)) (record {
    no_result = v.no_result;
    going = v.going;
    no_last_words = last_words-request t.speech (request text false t) v.no_last_words;
  })
]

abbrev AsLast : Text → Option ToolResult → Bool → Talk → Type 0
AsLast text result ended u =
    (u.terminal_result ≡ result)
    × (u.call_ended ≡ ended)
    × (last_words u.speech ≡ (if is_empty text then [] else text ∷ []))

enqueue-last :
    (text : Text) (t : Talk)
    → last_words t.speech ≡ []
    → AsLast text t.terminal_result t.call_ended (enqueue_speech text true t)
unfolding enqueue_speech
enqueue-last text t none_yet = elim (Bool-cases (is_empty text)) [
  | inl silent ↦
      subst (AsLast text t.terminal_result t.call_ended) (sym (if-true (is_empty text) t _ silent))
        (refl, refl, none_yet ∙ sym (if-true (is_empty text) [] (text ∷ []) silent))
  | inr speaks ↦
      subst (AsLast text t.terminal_result t.call_ended) (sym (if-false (is_empty text) t _ speaks))
        (
          refl,
          refl,
          last_words-request t.speech (request text true t) none_yet
              ∙ sym (if-false (is_empty text) [] (text ∷ []) speaks),
        )
]

say-IsOpen :
    (cfg : Settings) (content : Text) (draw : ℕ) (filler : Text) (t : Talk)
    → IsOpen t
    → IsOpen (say_filled cfg content draw filler t)
unfolding say_filled say
say-IsOpen cfg content draw filler t v =
    let made = inject_filler content cfg.filler_frequency t.turns_since_filler draw filler in
    either_way IsOpen (is_empty content) t (say cfg content draw filler t) v (
      enqueue-IsOpen made.0 _
        (record { no_result = v.no_result; going = v.going; no_last_words = v.no_last_words }))

end_with-IsDone : (result : ToolResult) (t : Talk) → IsOpen t → IsDone (end_with result t)
unfolding end_with
end_with-IsDone result t v =
    let done =
      enqueue-last result.speak (record t { terminal_result = some result }) v.no_last_words in
    record { result = result; has_result = done.0; spoken_once = done.2 }

abbrev pub IsFine : Talk → Type 0
IsFine t = IsOpen t ⊎ IsDone t

note-IsOpen :
    (dump : Args → Text) (call : ToolCall) (done : ToolResult × List ViciPost) (t : Talk)
    → IsOpen t
    → IsOpen (note_result dump call done t)
unfolding note_result
note-IsOpen dump call done t v = record {
  no_result = v.no_result;
  going = v.going;
  no_last_words = v.no_last_words;
}

follow-IsFine :
    (cfg : Settings) (call : ToolCall) (rest : Talk → Talk) (reply : Option Text) (t : Talk)
    → ((u : Talk) → IsOpen u → IsFine (rest u))
    → IsOpen t
    → IsFine (follow_up cfg call rest reply t)
follow-IsFine cfg call rest none t ih v = inl v
follow-IsFine cfg call rest (some content) t ih v =
    ih (say_filled cfg content call.follow_draw call.follow_filler t)
      (say-IsOpen cfg content call.follow_draw call.follow_filler t v)

choose-IsFine : (b : Bool) (x y : Talk) → IsFine x → IsFine y → IsFine (if b then x else y)
choose-IsFine true x y hx hy = hx
choose-IsFine false x y hx hy = hy

-- However the tools answer, the calls of one answer leave the conversation going_on or done.
run_calls-IsFine :
    (cfg : Settings) (dump : Args → Text) (calls : List ToolCall) (t : Talk)
    → IsOpen t
    → IsFine (run_calls cfg dump calls t)
unfolding run_calls
run_calls-IsFine cfg dump [] t v = inl v
run_calls-IsFine cfg dump (call ∷ calls) t v =
    let done = dispatch call.name call.arguments call.world in
    let noted = note_result dump call done t in
    let going_on = note-IsOpen dump call done t v in
    let rest = run_calls cfg dump calls in
    choose-IsFine done.0.is_terminal (end_with done.0 noted)
      (if call.name == "search_kb" then follow_up cfg call rest call.follow noted else rest noted)
      (inr (end_with-IsDone done.0 noted going_on))
      (choose-IsFine (call.name == "search_kb") (follow_up cfg call rest call.follow noted)
        (rest noted)
        (follow-IsFine cfg call rest call.follow noted (run_calls-IsFine cfg dump calls) going_on)
        (run_calls-IsFine cfg dump calls noted going_on))

respond-IsFine :
    (cfg : Settings) (dump : Args → Text) (content : Text) (calls : List ToolCall) (draw : ℕ)
    (filler : Text) (t : Talk)
    → IsOpen t
    → IsFine (handle_llm_response cfg dump content calls draw filler t)
unfolding handle_llm_response
respond-IsFine cfg dump content [] draw filler t v = inl (say-IsOpen cfg content draw filler t v)
respond-IsFine cfg dump content (call ∷ calls) draw filler t v =
    let said = say_filled cfg content draw filler t in
    let going_on = say-IsOpen cfg content draw filler t v in
    run_calls-IsFine cfg dump (call ∷ calls)
      (record said { messages = said.messages ++ assistant_calls content (call ∷ calls) ∷ [] })
      (record {
        no_result = going_on.no_result;
        going = going_on.going;
        no_last_words = going_on.no_last_words;
      })

-- The call is over.
abbrev pub IsOver : Talk → Type 0
IsOver t = (t.call_ended ≡ true) × IsDone t

next-IsSettled :
    (rest : Talk → Talk) (result : Option ToolResult) (t : Talk)
    → ((u : Talk) → IsOpen u → IsOpen (rest u) ⊎ IsOver (rest u))
    → t.terminal_result ≡ result
    → IsFine t
    → IsOpen (next_turn rest result t) ⊎ IsOver (next_turn rest result t)
next-IsSettled rest none t ih e (inl going_on) = ih t going_on
next-IsSettled rest none t ih e (inr done) = cc
next-IsSettled rest (some r) t ih e (inl going_on) = cc
next-IsSettled rest (some r) t ih e (inr done) = inr (
  refl,
  record { result = done.result; has_result = done.has_result; spoken_once = done.spoken_once },
)

answer-IsSettled :
    (cfg : Settings) (dump : Args → Text) (turn : Turn) (rest : Talk → Talk)
    (reply : Option (Text × List ToolCall)) (t : Talk)
    → ((u : Talk) → IsOpen u → IsOpen (rest u) ⊎ IsOver (rest u))
    → IsOpen t
    → let t' = answer cfg dump turn rest reply t in IsOpen t' ⊎ IsOver t'
unfolding answer
answer-IsSettled cfg dump turn rest none t ih v =
    let spoken = enqueue-last fallback_apology t v.no_last_words in
    inr (refl, record { result = llm_failure; has_result = refl; spoken_once = spoken.2 })
answer-IsSettled cfg dump turn rest (some (content, calls)) t ih v =
    let handled = handle_llm_response cfg dump content calls turn.draw turn.filler t in
    next-IsSettled rest handled.terminal_result handled ih refl
      (respond-IsFine cfg dump content calls turn.draw turn.filler t v)

-- Whatever the caller says, the model answers and the tools do, and whether or not the queue of speech
-- has room: a conversation that was going on, with no last words asked for, still is; or the call is over
-- with a result, and the last words that were asked for are the words of that result, once, or none where
-- it has none.
pub run-IsSettled :
    (cfg : Settings) (dump : Args → Text) (turns : List Turn) (t : Talk)
    → IsOpen t
    → IsOpen (run cfg dump turns t) ⊎ IsOver (run cfg dump turns t)
unfolding run
run-IsSettled cfg dump [] t v = inl v
run-IsSettled cfg dump (turn ∷ turns) t v = elim (Bool-cases (is_empty turn.text)) [
  | inl silent ↦
      subst (λ u. IsOpen u ⊎ IsOver u) (sym (if-true _ _ _ silent))
        (run-IsSettled cfg dump turns t v)
  | inr speaks ↦
      subst (λ u. IsOpen u ⊎ IsOver u) (sym (if-false _ _ _ speaks))
        (answer-IsSettled cfg dump turn (run cfg dump turns) turn.reply
          (record t { messages = t.messages ++ user turn.text ∷ [] }) (run-IsSettled cfg dump turns)
          (record { no_result = v.no_result; going = v.going; no_last_words = v.no_last_words }))
]
