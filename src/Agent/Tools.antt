-- ===== src/Agent/Tools.antt =====
-- workers/src/aipanel_worker/tools.py and the posts of vici_client.py: what the model may do. The
-- arguments of a tool are the texts of its JSON object; one of another kind, which some tools take and
-- others fail on, is left out, and a tool that fails for any reason is `crashes` in `World`.
pub mod Results
use aipanel.Base.{
  ℕ, ◌≡◌, String, Text, codes, Bool, true, false, not, ◌&&◌, ◌||◌, List, [], ◌∷◌, ◌++◌, Option,
  none, some, take, is_empty, if◌then◌else◌, ◌==◌, string_Key, arith, Bool-cases, inl, inr,
}
use aipanel.Base.Dict
use aipanel.Base.Dict.{Dict}
use aipanel.Base.Texts.{strip}

pub record ToolResult : Type 0 where
  pub name : String
  pub success : Bool
  pub is_terminal : Bool
  pub speak : Text
  pub feedback_to_llm : Text
  pub dispo_code : String
  pub extra : Dict String Text

-- What is posted to the session manager.
pub data ViciPost : Type 0 where
  transfer_post : Text → Text → ViciPost
  dnc_post : Text → ViciPost
  callback_post : Text → Text → ViciPost

-- How the world answers one tool: whether the post succeeds, what the search finds, whether the tool
-- raises before it posts anything, and the text of an error.
pub record World : Type 0 where
  pub post_ok : Bool
  pub results : List Text
  pub crashes : Bool
  pub error : Text

abbrev pub Args : Type 0
Args = Dict String Text

-- `args.get(key, "")`.
abbrev pub argument : String → Args → Text
argument key args = elim (Dict.get key args) [ none ↦ [] | some t ↦ t ]

abbrev pub told : String → Bool → Text → ToolResult
told name success feedback = record {
  name = name;
  success = success;
  is_terminal = false;
  speak = [];
  feedback_to_llm = feedback;
  dispo_code = "";
  extra = [];
}

abbrev terminal : String → String → String → Args → ToolResult
terminal name speak dispo_code extra = record {
  name = name;
  success = true;
  is_terminal = true;
  speak = codes speak;
  feedback_to_llm = [];
  dispo_code = dispo_code;
  extra = extra;
}

-- `"\n".join(f"- {r}" for r in results)`.
abbrev bullets : List Text → Text
bullets [] = []
bullets (r ∷ []) = codes "- " ++ r
bullets (r ∷ s ∷ rest) = codes "- " ++ r ++ codes "\n" ++ bullets (s ∷ rest)

pub search_kb : Args → World → ToolResult × List ViciPost
search_kb args w =
    if is_empty (strip (argument "query" args))
    then (told "search_kb" false (codes "Empty query."), [])
    else if is_empty w.results
    then (told "search_kb" true (codes "No results found."), [])
    else (told "search_kb" true (codes "Top results:\n" ++ bullets (take 5 w.results)), [])

pub transfer : Args → World → ToolResult × List ViciPost
transfer args w =
    let ingroup = argument "ingroup_id" args in
    let summary = argument "summary_for_agent" args in
    if is_empty ingroup
    then (told "transfer_to_ingroup" false (codes "ingroup_id is required."), [])
    else if w.post_ok
    then (
      terminal "transfer_to_ingroup" "Sure — transferring you now, please hold." "XFER" (
          ("ingroup_id", ingroup) ∷ ("reason", argument "reason" args) ∷ ("summary", summary) ∷ []),
      transfer_post ingroup summary ∷ [],
    )
    else (
      told "transfer_to_ingroup" false (codes "Transfer failed; please try a different action."),
      transfer_post ingroup summary ∷ [],
    )

-- The answer to the post is not looked at.
pub dnc : Args → World → ToolResult × List ViciPost
dnc args w = (
  terminal "mark_dnc" "Understood — I've added you to our do-not-call list. Have a good day." "DNC"
      (("reason", argument "reason" args) ∷ []),
  dnc_post (argument "reason" args) ∷ [],
)

pub callback : Args → World → ToolResult × List ViciPost
callback args w =
    let when = argument "when" args in
    let notes = argument "notes" args in
    if w.post_ok
    then (
      terminal "schedule_callback" "Got it — I've scheduled a callback. Talk to you then." "CALLBK"
          (("when", when) ∷ ("notes", notes) ∷ []),
      callback_post when notes ∷ [],
    )
    else (
      told "schedule_callback" false
          (codes "Couldn't schedule the callback. Try a different time."),
      callback_post when notes ∷ [],
    )

pub dispose_not_interested : Args → World → ToolResult × List ViciPost
dispose_not_interested args w = (
  terminal "dispose_not_interested" "Thanks for your time. Have a good day." "NI"
      (("reason", argument "reason" args) ∷ []),
  [],
)

pub dispose_qualified : Args → World → ToolResult × List ViciPost
dispose_qualified args w = (
  terminal "dispose_qualified"
      "Wonderful — I'll get this over to the team and they'll be in touch shortly." "QUAL"
      (("notes", argument "notes" args) ∷ []),
  [],
)

pub end_call : Args → World → ToolResult × List ViciPost
end_call args w = (
  terminal "end_call" "Thanks — have a good day." "DONE" (("reason", argument "reason" args) ∷ []),
  [],
)

-- `TERMINAL_TOOLS`.
abbrev pub terminal_tools : List String
terminal_tools =
    "transfer_to_ingroup" ∷ "mark_dnc" ∷ "schedule_callback" ∷ "dispose_not_interested"
    ∷ "dispose_qualified" ∷ "end_call" ∷ []

abbrev pub is_listed : String → List String → Bool
is_listed name [] = false
is_listed name (n ∷ names) = n == name || is_listed name names

abbrev pub Tool : Type 0
Tool = Args → World → ToolResult × List ViciPost

-- `_DISPATCH`.
abbrev pub tools : Dict String Tool
tools =
    ("search_kb", search_kb)
    ∷ ("transfer_to_ingroup", transfer)
    ∷ ("mark_dnc", dnc)
    ∷ ("schedule_callback", callback)
    ∷ ("dispose_not_interested", dispose_not_interested)
    ∷ ("dispose_qualified", dispose_qualified)
    ∷ ("end_call", end_call)
    ∷ []

abbrev choices : Text
choices =
    codes
      "['dispose_not_interested', 'dispose_qualified', 'end_call', 'mark_dnc', 'schedule_callback', 'search_kb', 'transfer_to_ingroup']"

abbrev pub run_tool : String → Tool → Args → World → ToolResult × List ViciPost
run_tool name tool args w =
    let done = tool args w in
    if w.crashes
    then (told name false (codes "Tool failed internally: " ++ w.error ++ codes "."), [])
    else done

abbrev pub call_tool : String → Option Tool → Option Args → World → ToolResult × List ViciPost
call_tool name none args w = (
  told name false (codes "Unknown tool '" ++ codes name ++ codes "'. Choose from: " ++ choices),
  [],
)
call_tool name (some tool) none w =
    (told name false (codes "Tool args were not valid JSON: " ++ w.error ++ codes "."), [])
call_tool name (some tool) (some args) w = run_tool name tool args w

-- `dispatch`; the arguments are none where they are no JSON.
unfoldable pub dispatch : String → Option Args → World → ToolResult × List ViciPost
dispatch name args w = call_tool name (Dict.get name tools) args w
