-- ===== src/Agent/Conversation/Codes.antt =====
-- The disposition code with which a conversation of workers/src/aipanel_worker/conversation.py ends.
use aipanel.Base.{
  ℕ, ◌≡◌, refl, sym, subst, Text, Bool, true, false, not, Bool-cases, List, [], ◌∷◌, ◌++◌, Option,
  none, some, inl, inr, is_empty, if-true, if-false, either_way, ◌==◌, string_Key, arith,
}
use aipanel.Agent.Tools.{ToolResult, ViciPost, Args, dispatch}
use aipanel.Agent.Tools.Results.{dispatch-ends_well}
use aipanel.Agent.Conversation.{
  ToolCall, Settings, Talk, Turn, enqueue_speech, inject_filler, say, say_filled, note_result,
  end_with, follow_up, run_calls, handle_llm_response, answer, next_turn, run, user,
  assistant_calls,
}

-- A result, if there is one, has a code.
abbrev pub is_coded : Option ToolResult → Bool
is_coded none = true
is_coded (some r) = not (r.dispo_code == "")

abbrev IsCoded : Talk → Type 0
IsCoded t = is_coded t.terminal_result ≡ true

enqueue-result :
    (text : Text) (last : Bool) (t : Talk)
    → (enqueue_speech text last t).terminal_result ≡ t.terminal_result
unfolding enqueue_speech
enqueue-result text last t =
    either_way (λ (u : Talk). u.terminal_result ≡ t.terminal_result) (is_empty text) t _ refl refl

enqueue-IsCoded :
    (text : Text) (last : Bool) (t : Talk) → IsCoded t → IsCoded (enqueue_speech text last t)
enqueue-IsCoded text last t c = subst (λ r. is_coded r ≡ true) (sym (enqueue-result text last t)) c

say-IsCoded :
    (cfg : Settings) (content : Text) (draw : ℕ) (filler : Text) (t : Talk)
    → IsCoded t
    → IsCoded (say_filled cfg content draw filler t)
unfolding say_filled say
say-IsCoded cfg content draw filler t c =
    let made = inject_filler content cfg.filler_frequency t.turns_since_filler draw filler in
    either_way IsCoded (is_empty content) t (say cfg content draw filler t) c
      (enqueue-IsCoded made.0 false _ c)

end_with-IsCoded :
    (result : ToolResult) (t : Talk) → is_coded (some result) ≡ true → IsCoded (end_with result t)
unfolding end_with
end_with-IsCoded result t c =
    subst (λ r. is_coded r ≡ true)
      (sym (enqueue-result result.speak true (record t { terminal_result = some result }))) c

note-IsCoded :
    (dump : Args → Text) (call : ToolCall) (done : ToolResult × List ViciPost) (t : Talk)
    → IsCoded t
    → IsCoded (note_result dump call done t)
unfolding note_result
note-IsCoded dump call done t c = c

follow-IsCoded :
    (cfg : Settings) (call : ToolCall) (rest : Talk → Talk) (reply : Option Text) (t : Talk)
    → ((u : Talk) → IsCoded u → IsCoded (rest u))
    → IsCoded t
    → IsCoded (follow_up cfg call rest reply t)
follow-IsCoded cfg call rest none t ih c = c
follow-IsCoded cfg call rest (some content) t ih c =
    ih (say_filled cfg content call.follow_draw call.follow_filler t)
      (say-IsCoded cfg content call.follow_draw call.follow_filler t c)

run_calls-IsCoded :
    (cfg : Settings) (dump : Args → Text) (calls : List ToolCall) (t : Talk)
    → IsCoded t
    → IsCoded (run_calls cfg dump calls t)
unfolding run_calls
run_calls-IsCoded cfg dump [] t c = c
run_calls-IsCoded cfg dump (call ∷ calls) t c =
    let done = dispatch call.name call.arguments call.world in
    let noted = note_result dump call done t in
    let c' = note-IsCoded dump call done t c in
    let rest = run_calls cfg dump calls in
    let goes_on =
      either_way IsCoded (call.name == "search_kb") (follow_up cfg call rest call.follow noted)
        (rest noted)
        (follow-IsCoded cfg call rest call.follow noted (run_calls-IsCoded cfg dump calls) c')
        (run_calls-IsCoded cfg dump calls noted c') in
    elim (Bool-cases done.0.is_terminal) [
      | inl ends ↦ subst IsCoded (sym (if-true done.0.is_terminal _ _ ends)) (
          end_with-IsCoded done.0 noted
            (ground (arith, ends, dispatch-ends_well call.name call.arguments call.world)))
      | inr going ↦ subst IsCoded (sym (if-false done.0.is_terminal _ _ going)) goes_on
    ]

respond-IsCoded :
    (cfg : Settings) (dump : Args → Text) (content : Text) (calls : List ToolCall) (draw : ℕ)
    (filler : Text) (t : Talk)
    → IsCoded t
    → IsCoded (handle_llm_response cfg dump content calls draw filler t)
unfolding handle_llm_response
respond-IsCoded cfg dump content [] draw filler t c = say-IsCoded cfg content draw filler t c
respond-IsCoded cfg dump content (call ∷ calls) draw filler t c =
    let said = say_filled cfg content draw filler t in
    run_calls-IsCoded cfg dump (call ∷ calls)
      (record said { messages = said.messages ++ assistant_calls content (call ∷ calls) ∷ [] })
      (say-IsCoded cfg content draw filler t c)

next-IsCoded :
    (rest : Talk → Talk) (result : Option ToolResult) (t : Talk)
    → ((u : Talk) → IsCoded u → IsCoded (rest u))
    → IsCoded t
    → IsCoded (next_turn rest result t)
next-IsCoded rest none t ih c = ih t c
next-IsCoded rest (some r) t ih c = c

answer-IsCoded :
    (cfg : Settings) (dump : Args → Text) (turn : Turn) (rest : Talk → Talk)
    (reply : Option (Text × List ToolCall)) (t : Talk)
    → ((u : Talk) → IsCoded u → IsCoded (rest u))
    → IsCoded t
    → IsCoded (answer cfg dump turn rest reply t)
unfolding answer
answer-IsCoded cfg dump turn rest none t ih c = refl
answer-IsCoded cfg dump turn rest (some (content, calls)) t ih c =
    let handled = handle_llm_response cfg dump content calls turn.draw turn.filler t in
    next-IsCoded rest handled.terminal_result handled ih
      (respond-IsCoded cfg dump content calls turn.draw turn.filler t c)

pub run-IsCoded :
    (cfg : Settings) (dump : Args → Text) (turns : List Turn) (t : Talk)
    → IsCoded t
    → IsCoded (run cfg dump turns t)
unfolding run
run-IsCoded cfg dump [] t c = c
run-IsCoded cfg dump (turn ∷ turns) t c =
    let heard = record t { messages = t.messages ++ user turn.text ∷ [] } in
    either_way IsCoded (is_empty turn.text) (run cfg dump turns t)
      (answer cfg dump turn (run cfg dump turns) turn.reply heard) (run-IsCoded cfg dump turns t c)
      (answer-IsCoded cfg dump turn (run cfg dump turns) turn.reply heard
        (run-IsCoded cfg dump turns) c)
