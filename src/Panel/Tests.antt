-- ===== src/Panel/Tests.antt =====
-- The panel in concrete situations.
use aipanel.Base.{
  ℕ, suc, ◌≡◌, refl, ap, ltb, String, Text, codes, true, false, List, [], ◌∷◌, Option, none, some,
  map, length, if◌then◌else◌, nat_Key, string_Key,
}
use aipanel.Base.Dict
use aipanel.Panel.Auth.{
  Claims, Jwt, User, Panel, unauthorized, granted, get_current_user, issue_access, logout,
  read_token, verify, payload_of, deny, is_denied,
}
use aipanel.Panel.Auth.Revoked.{get_current_user-logout}
use aipanel.Panel.Deployments.{Deployment, Table, list, delete, serve, handle}
use aipanel.Panel.Deployments.Isolation.{Shows, handle-Stands, serve-Shows}
use aipanel.Panel.Ingest.{
  chunk_loop, Document, processing, kb_ingest_document, chunk, chunk_target_tokens,
  chunk_overlap_tokens,
}
use aipanel.Panel.Ingest.Overlap.{IsCover, chunk_loop-covers}
use aipanel.Panel.Ingest.Stored.{IsStored, kb_ingest_document-IsStored}
use aipanel.Panel.Scripts.{Script, model_dump, enqueue_opener-model_dump}
use mathlib.Core.List.{flat_map}
use aipanel.Panel.Mining.{CallEvent, mine_one_campaign}
use aipanel.Panel.Mining.Best.{IsBest, exchanges, mine_one_campaign-IsBest}
use aipanel.Agent.Session.Config.{AgentConfig, no_agent, pick_opener}
use aipanel.Agent.Conversation.{Talk, enqueue_opener}

-- Four sentences of 2 tokens, with room for 5 and an overlap of 2.
abbrev sents : List Text
sents = codes "Hello. A" ∷ codes "Hello. B" ∷ codes "Hello. C" ∷ codes "Hello. D" ∷ []

chunk_loop-covers_example : IsCover 5 2 [] sents (chunk_loop 5 2 sents [] 0)
chunk_loop-covers_example = chunk_loop-covers 5 2 sents

abbrev embed : List Text → Option (List ℕ)
embed texts = some (map (λ t. length t) texts)

map-length : (texts : List Text) → length (map (λ (t : Text). length t) texts) ≡ length texts
map-length [] = refl
map-length (t ∷ texts) = ap (λ n. suc n) (map-length texts)

abbrev manual : Text
manual = codes "The price is 20. It is paid monthly.\n\nCall us."

abbrev uploaded : Document ℕ
uploaded = record { status = processing; rows = [] }

kb_ingest_document-IsStored_example :
    IsStored
      (chunk chunk_target_tokens chunk_overlap_tokens manual)
      (kb_ingest_document embed true (some manual) uploaded)
kb_ingest_document-IsStored_example =
    kb_ingest_document-IsStored embed manual uploaded
      (λ texts. (map (λ t. length t) texts, refl, map-length texts))

-- Tokens that are their own claims.
abbrev until : ℕ → Claims → Option ℕ → Option Claims
until now claims none = none
until now claims (some exp) = if ltb now exp then some claims else none

abbrev plain : Jwt Claims
plain = record {
  encode = λ claims. claims;
  decode = λ now claims. until now claims claims.exp;
  reads_back = λ now exp claims e. ap (until now claims) e;
}

abbrev ann : User
ann = record {
  id = 1;
  tenant_id = 10;
  role = "admin";
  email = "ann@example.com";
  password_hash = "h";
}

abbrev panel : Panel
panel = record { users = (1, ann) ∷ []; denylist = []; redis_up = true }

abbrev logged_out : Panel
logged_out = record panel { denylist = ("j", 1000) ∷ [] }

get_current_user-logout_example :
    get_current_user plain 300 logged_out (some (issue_access plain ann 100 900 "j")) ≡ unauthorized
unfolding logout read_token verify issue_access payload_of is_denied deny Dict.get Dict.put
get_current_user-logout_example =
    get_current_user-logout plain ann 100 900 200 300 "j" panel logged_out refl refl refl

abbrev theirs : Deployment
theirs = record {
  tenant_id = 20;
  agent_id = 1;
  vicidial_server_id = 1;
  vici_user = "u";
  vici_pass_encrypted = "x";
  phone_login = "p";
  phone_pass_encrypted = "y";
  campaign_id = "SALES";
  aipanel_campaign_id = none;
  allowed_transfer_ingroups = [];
  dispo_mapping = [];
  status = "running";
}

abbrev table : Table
table = (5, theirs) ∷ []

abbrev encrypt : String → String
encrypt s = "sealed"

abbrev as_stored : List Deployment → List Deployment
as_stored rows = rows

handle-Stands_example :
    Dict.get 5 (handle encrypt as_stored (granted ann) (delete 5) table).1 ≡ some theirs
unfolding Dict.get
handle-Stands_example = handle-Stands encrypt as_stored ann 5 theirs (delete 5) table refl refl

serve-Shows_example : Shows 10 (serve encrypt as_stored 10 (list 50 0 none) table).0
serve-Shows_example = serve-Shows encrypt as_stored 10 (list 50 0 none) table (λ rows all. all)

abbrev script : Script
script = record {
  opening_variants = codes "Hi there." ∷ [];
  sections = [];
  closing = codes "Thanks.";
  objections = [];
}

abbrev agent : AgentConfig
agent = record no_agent { script = model_dump script }

abbrev talk : Talk
talk = record {
  messages = [];
  turns_since_filler = 0;
  speech = [];
  has_room = λ n. true;
  posts = [];
  terminal_result = none;
  call_ended = false;
}

abbrev choose : List Text → Text
choose openers = codes "Hi there."

enqueue_opener-model_dump_example : enqueue_opener (pick_opener choose agent) talk ≡ talk
enqueue_opener-model_dump_example = enqueue_opener-model_dump choose agent script talk refl

abbrev said : List CallEvent
said =
    record { event_type = "user_speech"; text = codes "what does it cost per month?" }
    ∷ record {
      event_type = "agent_speech";
      text = codes "sure, it is twenty a month with no setup fee at all";
    }
    ∷ []

abbrev lower : Text → Text
lower t = t

mine_one_campaign-IsBest_example :
    IsBest (mine_one_campaign lower ((3, said) ∷ [])) (flat_map (exchanges lower) ((3, said) ∷ []))
mine_one_campaign-IsBest_example = mine_one_campaign-IsBest lower ((3, said) ∷ [])
