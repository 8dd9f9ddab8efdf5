-- ===== src/Sip/Accounts/Channel.antt =====
-- sip/src/aipanel_sip/account_manager.py, `_handle_pubsub_message` and `_pubsub_loop`: the messages on
-- the channel, as `json.loads` gives them, and the thread that watches for them until `stop`.
use aipanel.Base.{
  ℕ, ◌*◌, ◌≡◌, min, String, Bool, false, List, [], ◌∷◌, ◌++◌, Option, none, some, if◌then◌else◌,
  ◌==◌, string_Key,
}
use aipanel.Base.Dict
use aipanel.Base.Dict.{Dict}
use aipanel.Sip.Accounts.{
  SipAccount, Manager, DbRow, Action, add_account, update_account, remove_account, unknown_action,
  act,
}

-- A value of JSON, as far as the code looks at it: an object with its fields, or anything else.
pub data Field : Type 0 where
  text_field : String → Field
  other_field : Field

pub data Json : Type 0 where
  object_value : Dict String Field → Json
  other_value : Json

-- What reading a message gives: an action, an error that is caught, or one that is not (TypeError of
-- a value that is no object, AttributeError or TypeError of an id that is no text).
pub data Reading : Type 0 where
  message : Action → ℕ → Reading
  invalid escapes : Reading

abbrev action_of : Field → Action
action_of other_field = unknown_action
action_of (text_field a) =
    if a == "remove"
    then remove_account
    else if a == "add"
    then add_account
    else if a == "update"
    then update_account
    else unknown_action

abbrev read_id : Action → Option ℕ → Reading
read_id action none = invalid
read_id action (some did) = message action did

-- `uuid` reads the text of a UUID, with none for ValueError.
module _ (uuid : String → Option ℕ) where
  read_fields : Option Field → Option Field → Reading
  read_fields none did = invalid
  read_fields (some action) none = invalid
  read_fields (some action) (some other_field) = escapes
  read_fields (some action) (some (text_field did)) = read_id (action_of action) (uuid did)

  unfoldable pub read_message : Option Json → Reading
  unfolding read_fields
  read_message none = invalid
  read_message (some other_value) = escapes
  read_message (some (object_value fields)) =
      read_fields (Dict.get "action" fields) (Dict.get "deployment_id" fields)

-- One attempt to listen: Redis refuses, or it gives messages before the connection breaks. A message
-- with its text, none being no JSON.
pub data Round : Type 0 where
  refused : Round
  listened : List (Option Json) → Round

-- The thread: whether it still runs, the wait before it connects again, and the waits so far.
pub record Watcher : Type 0 where
  pub manager : Manager
  pub alive : Bool
  pub backoff : ℕ
  pub waits : List ℕ

abbrev wait : Watcher → Watcher
wait w = record w { waits = w.waits ++ w.backoff ∷ []; backoff = min (w.backoff * 2) 30 }

module _ (decrypt : String → Option String) (creates : SipAccount → Bool) (uuid : String → Option ℕ)
    (db : Option (List DbRow)) where
  abbrev obey : Reading → (Watcher → Watcher) → Watcher → Watcher
  obey (message action did) rest w =
      rest (record w { manager = act decrypt creates db action did w.manager })
  obey invalid rest w = rest w
  obey escapes rest w = record w { alive = false }

  -- `for msg in pubsub.listen()`, and the wait once the connection breaks.
  listen : List (Option Json) → Watcher → Watcher
  unfolding read_message
  listen [] w = wait w
  listen (m ∷ ms) w = obey (read_message uuid m) (listen ms) w

  -- `_pubsub_loop`, over its attempts.
  pub pubsub_loop : List Round → Watcher → Watcher
  unfolding listen
  pubsub_loop [] w = w
  pubsub_loop (refused ∷ rounds) w = pubsub_loop rounds (wait w)
  pubsub_loop (listened ms ∷ rounds) w =
      let heard = listen ms (record w { backoff = 1 }) in
      let rest = pubsub_loop rounds heard in if heard.alive then rest else heard

  -- The messages that are read without an error that escapes, and what they do to the accounts.
  abbrev pub obeyed : List (Action × ℕ) → Manager → Manager
  obeyed [] m = m
  obeyed ((action, did) ∷ orders) m = obeyed orders (act decrypt creates db action did m)

  abbrev Reads : List (Option Json) → List (Action × ℕ) → Type 0
  Reads [] [] = Unit {0}
  Reads (m ∷ ms) ((action, did) ∷ orders) =
      (read_message uuid m ≡ message action did) × Reads ms orders
  Reads _ _ = ⊥
