-- ===== src/Agent/Conversation.antt =====
-- workers/src/aipanel_worker/conversation.py and inject_filler of humanize.py: one turn after another
-- of what the caller says, what the model answers, which tools run and what is spoken. `run` stops at
-- the end of the list of turns where the code would wait for more or was stopped. Speech is kept as all that
-- was asked for, which is what the transcript gets, the oldest first; the delays are left out.
pub mod Endings
pub mod Codes
use aipanel.Base.{
  ℕ, zero, suc, ◌+◌, ◌≡◌, String, Text, codes, Bool, true, false, not, ◌&&◌, ◌||◌, List, [], ◌∷◌,
  ◌++◌, Option, none, some, is_some, is_empty, length, ltb, leb, nat_eq, if◌then◌else◌, ◌==◌,
  string_Key,
}
use aipanel.Base.Texts.{count_words}
use aipanel.Agent.Tools.{ToolResult, ViciPost, World, Args, dispatch}

-- A tool call of the model, with how the world answers the tool; `follow` is the model's answer after
-- a search, with none for a failure.
pub record ToolCall : Type 0 where
  pub id : String
  pub name : String
  pub arguments : Option Args
  pub world : World
  pub follow : Option Text
  pub follow_draw : ℕ
  pub follow_filler : Text

pub data ChatMessage : Type 0 where
  system user assistant : Text → ChatMessage
  assistant_calls : Text → List ToolCall → ChatMessage
  tool_message : String → Text → ChatMessage

-- A request of speech, and whether the queue had room for it.
pub record Speech : Type 0 where
  pub text : Text
  pub is_terminal : Bool
  pub queued : Bool

-- The frequency of fillers is in thousandths.
pub record Settings : Type 0 where
  pub filler_frequency : ℕ

-- `has_room` says whether the queue of 16 has room for the first request, the second and so on, which
-- depends on how fast speech is taken.
pub record Talk : Type 0 where
  pub messages : List ChatMessage
  pub turns_since_filler : ℕ
  pub speech : List Speech
  pub has_room : ℕ → Bool
  pub posts : List ViciPost
  pub terminal_result : Option ToolResult
  pub call_ended : Bool

-- What the caller says, and what `_call_llm` gives, with none for a failure: the stripped text and the
-- calls. `draw` is the random number, in thousandths, and `filler` the choice of a filler.
pub record Turn : Type 0 where
  pub text : Text
  pub reply : Option (Text × List ToolCall)
  pub draw : ℕ
  pub filler : Text

-- `_enqueue_speech`; where the queue is full the request is dropped.
abbrev pub request : Text → Bool → Talk → Speech
request text is_terminal t = record {
  text = text;
  is_terminal = is_terminal;
  queued = t.has_room (length t.speech);
}

unfoldable pub enqueue_speech : Text → Bool → Talk → Talk
enqueue_speech text is_terminal t =
    if is_empty text then t else record t { speech = t.speech ++ request text is_terminal t ∷ [] }

abbrev put_prompt : Text → List ChatMessage → List ChatMessage
put_prompt prompt [] = system prompt ∷ []
put_prompt prompt (system old ∷ messages) = system prompt ∷ messages
put_prompt prompt (m ∷ messages) = system prompt ∷ m ∷ messages

-- `set_system_prompt` and `enqueue_opener`.
unfoldable pub set_system_prompt : Text → Talk → Talk
set_system_prompt prompt t = record t { messages = put_prompt prompt t.messages }

unfoldable pub enqueue_opener : Text → Talk → Talk
unfolding enqueue_speech
enqueue_opener text t =
    if is_empty text
    then t
    else enqueue_speech text false (record t { messages = t.messages ++ assistant text ∷ [] })

-- `inject_filler`, with at least 4 turns between two fillers.
unfoldable pub inject_filler : Text → ℕ → ℕ → ℕ → Text → Text × Bool
inject_filler text frequency turns_since_last draw filler =
    if is_empty text || nat_eq frequency 0
    then (text, false)
    else if ltb (count_words false text) 4
    then (text, false)
    else if ltb turns_since_last 4
    then (text, false)
    else if leb frequency draw
    then (text, false)
    else (filler ++ text, true)

-- `_maybe_inject_filler`, and the message and the speech that follow it.
pub say : Settings → Text → ℕ → Text → Talk → Talk
unfolding enqueue_speech
say cfg content draw filler t =
    let made = inject_filler content cfg.filler_frequency t.turns_since_filler draw filler in
    enqueue_speech made.0 false (record t {
      turns_since_filler = if made.1 then 0 else t.turns_since_filler + 1;
      messages = t.messages ++ assistant content ∷ [];
    })

pub say_filled : Settings → Text → ℕ → Text → Talk → Talk
say_filled cfg content draw filler t = if is_empty content then t else say cfg content draw filler t

-- `result.feedback_to_llm or json.dumps(result.extra)`; `dump` is the second.
abbrev pub feedback : (Args → Text) → ToolResult → Text
feedback dump result =
    if is_empty result.feedback_to_llm then dump result.extra else result.feedback_to_llm

pub note_result : (Args → Text) → ToolCall → ToolResult × List ViciPost → Talk → Talk
note_result dump call done t = record t {
  messages = t.messages ++ tool_message call.id (feedback dump done.0) ∷ [];
  posts = t.posts ++ done.1;
}

pub end_with : ToolResult → Talk → Talk
unfolding enqueue_speech
end_with result t = enqueue_speech result.speak true (record t { terminal_result = some result })

-- After a search the model is asked again; if that fails, no further call is run.
abbrev pub follow_up : Settings → ToolCall → (Talk → Talk) → Option Text → Talk → Talk
follow_up cfg call rest none t = t
follow_up cfg call rest (some content) t =
    rest (say_filled cfg content call.follow_draw call.follow_filler t)

abbrev after_tool : Settings → ToolCall → (Talk → Talk) → ToolResult → Talk → Talk
after_tool cfg call rest result t =
    if result.is_terminal
    then end_with result t
    else if call.name == "search_kb"
    then follow_up cfg call rest call.follow t
    else rest t

-- The loop over the tool calls.
pub run_calls : Settings → (Args → Text) → List ToolCall → Talk → Talk
run_calls cfg dump [] t = t
run_calls cfg dump (call ∷ calls) t =
    let done = dispatch call.name call.arguments call.world in
    after_tool cfg call (run_calls cfg dump calls) done.0 (note_result dump call done t)

-- `_handle_llm_response`.
pub handle_llm_response : Settings → (Args → Text) → Text → List ToolCall → ℕ → Text → Talk → Talk
handle_llm_response cfg dump content [] draw filler t = say_filled cfg content draw filler t
handle_llm_response cfg dump content (call ∷ calls) draw filler t =
    let said = say_filled cfg content draw filler t in
    run_calls cfg dump (call ∷ calls)
      (record said { messages = said.messages ++ assistant_calls content (call ∷ calls) ∷ [] })

abbrev pub fallback_apology : Text
fallback_apology =
    codes "Sorry, I'm having trouble on my end. Let me transfer you to a human — please hold."

abbrev pub llm_failure : ToolResult
llm_failure = record {
  name = "end_call";
  success = false;
  is_terminal = true;
  speak = fallback_apology;
  feedback_to_llm = [];
  dispo_code = "ERROR_AI";
  extra = [];
}

abbrev set_ended : Talk → Talk
set_ended t = record t { call_ended = true }

-- The end of a turn: the call is over, or the next turn comes.
abbrev pub next_turn : (Talk → Talk) → Option ToolResult → Talk → Talk
next_turn rest none t = rest t
next_turn rest (some result) t = set_ended t

pub answer :
    Settings → (Args → Text) → Turn → (Talk → Talk) → Option (Text × List ToolCall) → Talk → Talk
answer cfg dump turn rest none t =
    set_ended
      (record (enqueue_speech fallback_apology true t) { terminal_result = some llm_failure })
answer cfg dump turn rest (some (content, calls)) t =
    let handled = handle_llm_response cfg dump content calls turn.draw turn.filler t in
    next_turn rest handled.terminal_result handled

-- `run`.
unfoldable pub run : Settings → (Args → Text) → List Turn → Talk → Talk
run cfg dump [] t = t
run cfg dump (turn ∷ turns) t =
    if is_empty turn.text
    then run cfg dump turns t
    else answer cfg dump turn (run cfg dump turns) turn.reply
        (record t { messages = t.messages ++ user turn.text ∷ [] })
