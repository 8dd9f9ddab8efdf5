-- ===== src/Agent/Tests.antt =====
-- The agent in concrete situations.
use aipanel.Base.{◌≡◌, ◌⊎◌, refl, Text, codes, true, false, List, [], ◌∷◌, none, some, string_Key}
use aipanel.Agent.Tools.{World, Args, dispatch}
use aipanel.Agent.Tools.Results.{ends_well, dispatch-ends_well}
use aipanel.Agent.Conversation.{
  Settings, Talk, ToolCall, Turn, system, assistant, set_system_prompt, enqueue_opener,
  enqueue_speech, run,
}
use aipanel.Agent.Conversation.Endings.{IsOpen, IsOver, run-IsSettled}

abbrev refused : World
refused = record { post_ok = false; results = []; crashes = false; error = [] }

abbrev reason : Args
reason = ("reason", codes "asked twice") ∷ []

dispatch-ends_well_example :
    ends_well (dispatch "transfer_to_ingroup" (some reason) refused).0 ≡ true
dispatch-ends_well_example = dispatch-ends_well "transfer_to_ingroup" (some reason) refused

abbrev settings : Settings
settings = record { filler_frequency = 200 }

abbrev begun : Talk
begun = record {
  messages = [];
  turns_since_filler = 99;
  speech = [];
  has_room = λ n. true;
  posts = [];
  terminal_result = none;
  call_ended = false;
}

abbrev remove_me : ToolCall
remove_me = record {
  id = "1";
  name = "mark_dnc";
  arguments = some reason;
  world = refused;
  follow = none;
  follow_draw = 0;
  follow_filler = [];
}

abbrev turns : List Turn
turns =
    record {
      text = codes "hello";
      reply = some (codes "Hi, how are you today?", []);
      draw = 500;
      filler = codes "um, ";
    }
    ∷ record { text = codes "remove me"; reply = some ([], remove_me ∷ []); draw = 0; filler = [] }
    ∷ []

abbrev dump : Args → Text
dump args = codes "{}"

begun-IsOpen : IsOpen begun
begun-IsOpen = record { no_result = refl; going = refl; no_last_words = refl }

run-IsSettled_example :
    IsOpen (run settings dump turns begun) ⊎ IsOver (run settings dump turns begun)
run-IsSettled_example = run-IsSettled settings dump turns begun begun-IsOpen

opened :
    (enqueue_opener
      (codes "Hi")
      (set_system_prompt (codes "B") (set_system_prompt (codes "A") begun))).messages
    ≡ system (codes "B") ∷ assistant (codes "Hi") ∷ []
unfolding enqueue_opener enqueue_speech set_system_prompt
opened = refl
