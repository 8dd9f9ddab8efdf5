-- ===== src/Agent/Session/Ending.antt =====
-- `_cleanup` of workers/src/aipanel_worker/call_session.py: what is done, in order, when a call is over. What
-- fails and is swallowed leaves no trace but a log; the duration is given.
use aipanel.Base.{
  ℕ, ◌≡◌, refl, ap, ◌∙◌, String, Text, Bool, true, false, not, ◌&&◌, List, [], ◌∷◌, ◌++◌, Option,
  none, some, if◌then◌else◌, if-true, ◌==◌, string_Key, arith,
}
use aipanel.Agent.Tools.{ToolResult, Args, argument}
use aipanel.Agent.Conversation.{Settings, Talk, Turn, run}
use aipanel.Agent.Conversation.Codes.{is_coded, run-IsCoded}

-- Which parts of the session are there, with the result of the conversation.
pub record Parts : Type 0 where
  pub audio_in : Bool
  pub audio_out : Bool
  pub conversation : Option (Option ToolResult)
  pub sip_writer : Bool
  pub vici : Bool
  pub recorder : Bool
  pub minio_client : Bool
  pub transcripts : Bool

-- The recorder's `close` may raise, for a disk that is full; the rest is what it leaves.
pub record Recording : Type 0 where
  pub close_raises : Bool
  pub has_file : Bool
  pub uploaded : Option Text

pub data Effect : Type 0 where
  stop_audio_in stop_audio_out stop_conversation send_hangup close_socket close_vici
        close_recorder :
      Effect
  post_disposition : String → Text → Effect
  update_call : String → String → Text → ℕ → Effect

-- `_classify_outcome`.
unfoldable classify_outcome : Option ToolResult → String
classify_outcome none = "abandoned"
classify_outcome (some terminal) = if terminal.success then terminal.name else "error"

abbrev dispo_of : Option ToolResult → String
dispo_of none = "ABANDON"
dispo_of (some terminal) = terminal.dispo_code

abbrev notes_of : Option ToolResult → Text
notes_of none = []
notes_of (some terminal) = argument "reason" terminal.extra

abbrev terminal_of : Option (Option ToolResult) → Option ToolResult
terminal_of none = none
terminal_of (some result) = result

abbrev if_there : Bool → List Effect → List Effect
if_there true effects = effects
if_there false effects = []

abbrev is_there : Option (Option ToolResult) → Bool
is_there none = false
is_there (some result) = true

-- The stops of the pipelines, the hangup, and what is told to ViciDial.
close_call : Parts → List Effect
close_call p =
    let terminal = terminal_of p.conversation in
    if_there p.audio_in (stop_audio_in ∷ [])
    ++ (if_there p.audio_out (stop_audio_out ∷ [])
        ++ (if_there (is_there p.conversation) (stop_conversation ∷ [])
            ++ (if_there p.sip_writer (send_hangup ∷ close_socket ∷ [])
                ++ if_there p.vici
                    (post_disposition (dispo_of terminal) (notes_of terminal) ∷ close_vici ∷ []))))

abbrev path_of : Option Text → Text
path_of none = []
path_of (some path) = path

-- The path of the recording that was uploaded.
abbrev recording_path : Parts → Recording → Text
recording_path p rec =
    if p.recorder && (rec.has_file && p.minio_client) then path_of rec.uploaded else []

abbrev closed_effects : Parts → Recording → ℕ → List Effect
closed_effects p rec duration_sec =
    let terminal = terminal_of p.conversation in
    if_there p.recorder (close_recorder ∷ [])
    ++ if_there p.transcripts (
        update_call (classify_outcome terminal) (dispo_of terminal) (recording_path p rec)
          duration_sec
        ∷ [])

-- `_cleanup`: what was done, and whether it raises.
pub cleanup : Parts → Recording → ℕ → List Effect × Bool
cleanup p rec duration_sec =
    if p.recorder && rec.close_raises
    then (close_call p, true)
    else (close_call p ++ closed_effects p rec duration_sec, false)

-- The dispositions that are posted, and the ends that are written to the row of the call.
abbrev pub dispositions : List Effect → List String
dispositions [] = []
dispositions (post_disposition code notes ∷ effects) = code ∷ dispositions effects
dispositions (_ ∷ effects) = dispositions effects

abbrev updates : List Effect → List (String × String)
updates [] = []
updates (update_call outcome code path duration ∷ effects) = (outcome, code) ∷ updates effects
updates (_ ∷ effects) = updates effects

dispositions_lem :
    (p : Parts) (rec : Recording) (duration_sec : ℕ)
    → dispositions (cleanup p rec duration_sec).0
      ≡ (if p.vici then dispo_of (terminal_of p.conversation) ∷ [] else [])
unfolding cleanup close_call
dispositions_lem p rec duration_sec = ground arith

updates_lem :
    (p : Parts) (rec : Recording) (duration_sec : ℕ)
    → updates (cleanup p rec duration_sec).0 ≡ (
        if p.transcripts && not (cleanup p rec duration_sec).1
        then (classify_outcome (terminal_of p.conversation), dispo_of (terminal_of p.conversation))
          ∷ []
        else [])
unfolding cleanup close_call
updates_lem p rec duration_sec = ground arith

-- Whatever of the session is there: one disposition is posted if the client of ViciDial is, and one end
-- is written to the row of the call if the transcript is and closing the recorder does not raise; both
-- with the code of the result, or ABANDON, and the outcome that goes with it.
cleanup_once :
    (p : Parts) (rec : Recording) (duration_sec : ℕ)
    → let done = cleanup p rec duration_sec in
      let terminal = terminal_of p.conversation in
      (dispositions done.0 ≡ (if p.vici then dispo_of terminal ∷ [] else []))
      × (updates done.0 ≡ (
          if p.transcripts && not done.1
          then (classify_outcome terminal, dispo_of terminal) ∷ []
          else []))
cleanup_once p rec duration_sec =
    (dispositions_lem p rec duration_sec, updates_lem p rec duration_sec)

dispo_of-coded :
    (terminal : Option ToolResult) → is_coded terminal ≡ true → (dispo_of terminal == "") ≡ false
dispo_of-coded none c = refl
dispo_of-coded (some r) c = ground (arith, c)

-- A conversation that began without a result, whatever was said on the call: a session with a client of
-- ViciDial posts exactly one disposition, and its code is not empty.
pub cleanup_coded :
    (cfg : Settings) (dump : Args → Text) (turns : List Turn) (t : Talk) (p : Parts)
    (rec : Recording) (duration_sec : ℕ)
    → t.terminal_result ≡ none
    → p.conversation ≡ some (run cfg dump turns t).terminal_result
    → p.vici ≡ true
    → (code : String) × (dispositions (cleanup p rec duration_sec).0 ≡ code ∷ [])
      × ((code == "") ≡ false)
cleanup_coded cfg dump turns t p rec duration_sec fresh result vici =
    let terminal = terminal_of p.conversation in
    let coded : is_coded terminal ≡ true =
      ap (λ r. is_coded (terminal_of r)) result
      ∙ run-IsCoded cfg dump turns t (ap is_coded fresh) in
    (
      dispo_of terminal,
      dispositions_lem p rec duration_sec ∙ if-true p.vici _ _ vici,
      dispo_of-coded terminal coded,
    )
