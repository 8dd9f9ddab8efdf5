-- ===== src/Agent/Session/Config.antt =====
-- The data of a call in workers/src/aipanel_worker/call_session.py: the job, the agent and the campaign, what
-- the campaign gives to the agent, and the opener. An object of JSON is a dict of the values `J`, of which
-- only the texts and lists of texts are looked into.
use aipanel.Base.{
  ◌≡◌, String, Text, codes, Bool, true, false, List, [], ◌∷◌, ◌++◌, Option, none, some, drop,
  is_some, if◌then◌else◌, ◌==◌, string_Key, eq_iff, arith,
}
use aipanel.Base.Dict
use aipanel.Base.Dict.{Dict}
use aipanel.Base.Texts.{starts_with}

-- A value of JSON: a text, a list of texts, or anything else, with whether Python takes it for true.
pub data Value : Type 0 where
  text : Text → Value
  texts : List Text → Value
  other : Bool → Value

unfoldable pub is_true : Value → Bool
is_true (text []) = false
is_true (text (c ∷ t)) = true
is_true (texts []) = false
is_true (texts (t ∷ ts)) = true
is_true (other b) = b

abbrev pub Object : Type 0
Object = Dict String Value

-- `raw.get(a) or raw.get(b)`.
abbrev pub truthy : Option Value → Option Value
truthy none = none
truthy (some v) = if is_true v then some v else none

abbrev pub or_else : Option Value → Option Value → Option Value
or_else none second = second
or_else (some v) second = some v

abbrev get_either : String → String → Object → Option Value
get_either a b raw = or_else (truthy (Dict.get a raw)) (truthy (Dict.get b raw))

pub record CallJob : Type 0 where
  pub call_id : Text
  pub deployment_id : Text
  pub sip_socket_path : Text
  pub vici_uniqueid : Option Value
  pub vici_lead_id : Option Value
  pub phone_number : Option Value
  pub campaign : Option Value

-- `str(… or "")`; `show` is `str` of what is no text.
abbrev str_of : (Value → Text) → Option Value → Text
str_of show none = []
str_of show (some (text t)) = t
str_of show (some (texts ts)) = show (texts ts)
str_of show (some (other b)) = show (other b)

-- `CallJob.from_payload`, of a dict.
unfoldable pub from_payload : (Value → Text) → Object → CallJob
from_payload show raw = record {
  call_id = str_of show (get_either "call_id" "id" raw);
  deployment_id = str_of show (truthy (Dict.get "deployment_id" raw));
  sip_socket_path = str_of show (get_either "sip_socket_path" "socket_path" raw);
  vici_uniqueid = truthy (Dict.get "vici_uniqueid" raw);
  vici_lead_id = truthy (Dict.get "vici_lead_id" raw);
  phone_number = get_either "phone_number" "vici_phone" raw;
  campaign = get_either "campaign" "vici_campaign" raw;
}

pub record AgentConfig : Type 0 where
  pub agent_id : Text
  pub name : Text
  pub persona : Object
  pub voice_id : Option Text
  pub language : Text
  pub script : Object
  pub scenario_tree : Object
  pub kb_collection_id : Option Text
  pub campaign_id : Option Text

pub record CampaignConfig : Type 0 where
  pub campaign_id : Text
  pub name : Text
  pub methodology : Text
  pub objective : Text
  pub persona_template : Object
  pub script_template : Object
  pub few_shot_pool : List Object

-- The columns of the first query, where NULL is none.
pub record AgentRow : Type 0 where
  pub id : Text
  pub name : Text
  pub persona : Option Object
  pub voice_id : Option Text
  pub language : Option Text
  pub script : Option Object
  pub scenario_tree : Option Object
  pub kb_collection_id : Option Text
  pub agent_campaign_id : Option Text
  pub deployment_campaign_id : Option Text

pub record CampaignRow : Type 0 where
  pub id : Text
  pub name : Option Text
  pub methodology : Option Text
  pub objective : Option Text
  pub persona_template : Option Object
  pub script_template : Option Object
  pub few_shot_pool : Option (List Object)

-- `x or default` and `x or None`.
abbrev or_text : Option Text → Text → Text
or_text none default = default
or_text (some []) default = default
or_text (some (c ∷ t)) default = c ∷ t

abbrev or_none : Option Text → Option Text
or_none none = none
or_none (some []) = none
or_none (some (c ∷ t)) = some (c ∷ t)

abbrev pub or_empty {ℓ} : {A : Type ℓ} → Option (List A) → List A
or_empty none = []
or_empty (some xs) = xs

abbrev pub no_agent : AgentConfig
no_agent = record {
  agent_id = [];
  name = codes "aipanel agent";
  persona = [];
  voice_id = none;
  language = codes "en";
  script = [];
  scenario_tree = [];
  kb_collection_id = none;
  campaign_id = none;
}

abbrev agent_of : AgentRow → AgentConfig
agent_of row = record {
  agent_id = row.id;
  name = row.name;
  persona = or_empty row.persona;
  voice_id = or_none row.voice_id;
  language = or_text row.language (codes "en");
  script = or_empty row.script;
  scenario_tree = or_empty row.scenario_tree;
  kb_collection_id = or_none row.kb_collection_id;
  campaign_id = or_none row.agent_campaign_id;
}

abbrev campaign_of : CampaignRow → CampaignConfig
campaign_of crow = record {
  campaign_id = crow.id;
  name = or_text crow.name [];
  methodology = or_text crow.methodology [];
  objective = or_text crow.objective [];
  persona_template = or_empty crow.persona_template;
  script_template = or_empty crow.script_template;
  few_shot_pool = or_empty crow.few_shot_pool;
}

-- `row[9] or row[8]`.
abbrev linked_campaign : AgentRow → Option Text
linked_campaign row = elim (or_none row.deployment_campaign_id) [
  | none ↦ or_none row.agent_campaign_id
  | some id ↦ some id
]

-- The database: the row for a deployment and that of a campaign, if it has one.
pub record Database : Type 0 where
  pub agent_row : Text → Option AgentRow
  pub campaign_row : Text → Option CampaignRow

abbrev load_campaign : Database → Option Text → Option CampaignConfig
load_campaign db none = none
load_campaign db (some id) = elim (db.campaign_row id) [
  | none ↦ none
  | some crow ↦ some (campaign_of crow)
]

-- `_sync_load_agent` and `_load_agent`; none is an error of the database.
unfoldable sync_load_agent : Database → Text → AgentConfig × Option CampaignConfig
sync_load_agent db deployment_id = elim (db.agent_row deployment_id) [
  | none ↦ (no_agent, none)
  | some row ↦ (agent_of row, load_campaign db (linked_campaign row))
]

unfoldable load_agent : Option Database → Text → AgentConfig × Option CampaignConfig
load_agent none deployment_id = (no_agent, none)
load_agent (some db) deployment_id = sync_load_agent db deployment_id

-- `merged.setdefault(k, v)`.
abbrev setdefault : String → Value → Object → Object
setdefault k v merged = if is_some (Dict.get k merged) then merged else Dict.put k v merged

-- The loop over `template.items()`.
merge_under : Object → Object → Object
merge_under [] merged = merged
merge_under ((k, v) ∷ template) merged = merge_under template (setdefault k v merged)

-- What `_build_system_prompt` takes from a campaign.
pub record Merged : Type 0 where
  pub persona : Object
  pub script : Object
  pub methodology : Text
  pub objective : Text
  pub few_shot : List Object

merge_campaign : AgentConfig → Option CampaignConfig → Merged
merge_campaign agent none = record {
  persona = agent.persona;
  script = agent.script;
  methodology = [];
  objective = [];
  few_shot = [];
}
merge_campaign agent (some campaign) = record {
  persona = merge_under campaign.persona_template agent.persona;
  script = merge_under campaign.script_template agent.script;
  methodology = campaign.methodology;
  objective = campaign.objective;
  few_shot = campaign.few_shot_pool;
}

-- `_pick_opener`; `choose` is the choice of `pick_opener`.
abbrev pub opener_of : (List Text → Text) → Option Value → Text
opener_of choose (some (text t)) = t
opener_of choose (some (texts (t ∷ ts))) = choose (t ∷ ts)
opener_of choose (some (texts [])) = []
opener_of choose (some (other b)) = []
opener_of choose none = []

-- The second `get` is not tested for truth; what is false is neither a text with words nor a list with
-- an element.
unfoldable pub pick_opener : (List Text → Text) → AgentConfig → Text
pick_opener choose agent =
    opener_of choose
      (or_else (truthy (Dict.get "openings" agent.script)) (Dict.get "opening" agent.script))

-- `_http_to_ws`.
unfoldable http_to_ws : Text → Text
http_to_ws url =
    if starts_with (codes "https://") url
    then codes "wss://" ++ drop 8 url
    else if starts_with (codes "http://") url
    then codes "ws://" ++ drop 7 url
    else url

-- The merged dict has the value of the agent where it has one, and otherwise that of the template.
get-setdefault :
    (k j : String) (v : Value) (d : Object)
    → Dict.get j (setdefault k v d)
      ≡ (if is_some (Dict.get j d) then Dict.get j d else if k == j then some v else none)
get-setdefault k j v d = ground (arith, eq_iff k j, Dict.get-put k j v d)

get-merge_under :
    (j : String) (template d : Object)
    → Dict.get j (merge_under template d)
      ≡ (if is_some (Dict.get j d) then Dict.get j d else Dict.get j template)
unfolding merge_under Dict.get
get-merge_under j [] d = ground arith
get-merge_under j ((k, v) ∷ template) d =
    ground (arith, get-merge_under j template (setdefault k v d), get-setdefault k j v d)

-- For every key, of the persona and of the script: the value of the agent, if it has one, and otherwise
-- that of the template of the campaign.
get-merge_campaign :
    (j : String) (agent : AgentConfig) (campaign : CampaignConfig)
    → let merged = merge_campaign agent (some campaign) in
      (Dict.get j merged.persona ≡ (
        if is_some (Dict.get j agent.persona)
        then Dict.get j agent.persona
        else Dict.get j campaign.persona_template))
      × (Dict.get j merged.script ≡ (
          if is_some (Dict.get j agent.script)
          then Dict.get j agent.script
          else Dict.get j campaign.script_template))
unfolding merge_campaign
get-merge_campaign j agent campaign = (
  get-merge_under j campaign.persona_template agent.persona,
  get-merge_under j campaign.script_template agent.script,
)
