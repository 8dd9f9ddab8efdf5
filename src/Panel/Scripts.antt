-- ===== src/Panel/Scripts.antt =====
-- The script that panel/backend/src/aipanel/schemas/agent_dsl.py lets the panel write, as
-- services/agents_service.py stores it (`model_dump`), and what the call worker reads of it. The sections
-- and the objections are lists of objects.
use aipanel.Base.{◌≡◌, ap, Text, Bool, not, List, [], ◌∷◌, is_empty, length, leb, ◌&&◌, string_Key}
use aipanel.Base.Dict
use aipanel.Agent.Session.Config.{
  text, texts, other, Object, AgentConfig, truthy, or_else, opener_of, pick_opener,
}
use aipanel.Agent.Conversation.{Talk, enqueue_opener}

pub record Script : Type 0 where
  pub opening_variants : List Text
  pub sections : List Object
  pub closing : Text
  pub objections : List Object

-- `Field(..., min_length=1, max_length=20)`.
unfoldable is_valid : Script → Bool
is_valid s = leb 1 (length s.opening_variants) && leb (length s.opening_variants) 20

-- `model_dump`.
pub model_dump : Script → Object
model_dump s =
    ("opening_variants", texts s.opening_variants)
    ∷ ("sections", other (not (is_empty s.sections)))
    ∷ ("closing", text s.closing)
    ∷ ("objections", other (not (is_empty s.objections)))
    ∷ []

-- The call worker takes no opener from a script that the panel has stored, whatever its variants of one:
-- the conversation begins without a word.
pub enqueue_opener-model_dump :
    (choose : List Text → Text) (agent : AgentConfig) (s : Script) (t : Talk)
    → agent.script ≡ model_dump s
    → enqueue_opener (pick_opener choose agent) t ≡ t
unfolding pick_opener model_dump enqueue_opener Dict.get
enqueue_opener-model_dump choose agent s t e =
    ap
      (λ script.
        enqueue_opener
          (opener_of choose
            (or_else (truthy (Dict.get "openings" script)) (Dict.get "opening" script)))
          t)
      e
