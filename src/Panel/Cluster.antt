-- ===== src/Panel/Cluster.antt =====
-- panel/backend/src/aipanel/api/v1/cluster.py, on the tables of db/models/ops.py: the nodes of the cluster and the
-- tokens with which they join. An id is a number, and that of a new row is given; times are seconds.
-- Requests come one after another, and one that fails is rolled back. The audit log, the install command
-- and the addresses that a node is given are left out.
pub mod Join
pub mod Upkeep
pub mod Routes
pub mod Tokens
pub mod Joins
pub mod Primary
pub mod Refused
mod Tests
use aipanel.Base.{
  ℕ, ◌+◌, ◌*◌, ◌≡◌, String, codes, Bool, true, false, not, ◌&&◌, ◌||◌, List, [], ◌∷◌, Option, none,
  some, is_some, length, take, leb, ltb, nat_eq, if◌then◌else◌, ◌==◌, string_Key, nat_Key,
}
use aipanel.Base.Dict
use aipanel.Base.Dict.{Dict}
use aipanel.Panel.Auth.{User, Access, unauthorized, forbidden, granted, require_role}

pub record Node : Type 0 where
  pub hostname : String
  pub role : String
  pub services : List String
  pub status : String
  pub joined_at : ℕ
  pub drained_at : Option ℕ

pub record NodeJoinToken : Type 0 where
  pub token_hash : String
  pub role : String
  pub label : String
  pub created_by : ℕ
  pub created_at : ℕ
  pub expires_at : ℕ
  pub consumed_at : Option ℕ
  pub consumed_by_node : Option ℕ

pub record Cluster : Type 0 where
  pub nodes : Dict ℕ Node
  pub tokens : Dict ℕ NodeJoinToken

-- SHA-256; the order of the database, for nodes and for tokens; and the column `nodes.role`: which text
-- the ORM takes back from it. One that its Enum does not declare is a LookupError.
pub record Outside : Type 0 where
  pub sha256 : String → String
  pub order_nodes : List Node → List Node
  pub order_tokens : List NodeJoinToken → List NodeJoinToken
  pub loads : String → Bool

pub data NodeRole : Type 0 where
  gpu app sip mixed : NodeRole

abbrev pub role_text : NodeRole → String
role_text gpu = "gpu"
role_text app = "app"
role_text sip = "sip"
role_text mixed = "mixed"

pub record JoinTokenCreate : Type 0 where
  pub role : NodeRole
  pub label : String
  pub ttl_minutes : ℕ

pub record JoinRequest : Type 0 where
  pub token : String
  pub hostname : String

pub data Reply : Type 0 where
  nodes_reply : List Node → Reply
  healthy_nodes : ℕ → Reply
  tokens_reply : List NodeJoinToken → Reply
  token_created : ℕ → String → NodeJoinToken → Reply
  joined : ℕ → String → Reply
  node_reply : Node → Reply
  done : Reply
  http_error : ℕ → Reply

abbrev pub values {ℓ} : {A : Type ℓ} → Dict ℕ A → List A
values [] = []
values ((id, a) ∷ d) = a ∷ values d

-- `list_nodes` and `cluster_health`.
abbrev pub all_loaded : Outside → List Node → Bool
all_loaded o [] = true
all_loaded o (n ∷ nodes) = o.loads n.role && all_loaded o nodes

pub list_nodes : Outside → Cluster → Reply
list_nodes o c =
    if all_loaded o (values c.nodes)
    then nodes_reply (o.order_nodes (values c.nodes))
    else http_error 500

abbrev pub not_down : List Node → List Node
not_down [] = []
not_down (n ∷ nodes) = if n.status == "down" then not_down nodes else n ∷ not_down nodes

pub cluster_health : Outside → Cluster → Reply
cluster_health o c =
    let rows = not_down (values c.nodes) in
    if all_loaded o rows then healthy_nodes (length rows) else http_error 500

pub list_join_tokens : Outside → Cluster → Reply
list_join_tokens o c = tokens_reply (take 50 (o.order_tokens (values c.tokens)))

-- The row with a hash; the column is unique.
abbrev pub find_token : String → Dict ℕ NodeJoinToken → Option NodeJoinToken
find_token h [] = none
find_token h ((id, tok) ∷ tokens) = if tok.token_hash == h then some tok else find_token h tokens

-- `create_join_token`; `raw` is the random token.
abbrev pub new_token : Outside → ℕ → ℕ → String → JoinTokenCreate → NodeJoinToken
new_token o now user_id raw body = record {
  token_hash = o.sha256 raw;
  role = role_text body.role;
  label = body.label;
  created_by = user_id;
  created_at = now;
  expires_at = now + body.ttl_minutes * 60;
  consumed_at = none;
  consumed_by_node = none;
}

abbrev pub size : String → ℕ
size s = length (codes s)

abbrev pub add_token : ℕ → String → NodeJoinToken → Cluster → Reply × Cluster
add_token id raw tok c =
    if is_some (Dict.get id c.tokens) || is_some (find_token tok.token_hash c.tokens)
    then (http_error 500, c)
    else (token_created id raw tok, record c { tokens = Dict.put id tok c.tokens })

pub create_join_token : Outside → ℕ → ℕ → ℕ → String → JoinTokenCreate → Cluster → Reply × Cluster
create_join_token o now user_id id raw body c =
    if leb (size body.label) 200 && (leb 5 body.ttl_minutes && leb body.ttl_minutes 1440)
    then add_token id raw (new_token o now user_id raw body) c
    else (http_error 422, c)

pub revoke_join_token : ℕ → Cluster → Reply × Cluster
revoke_join_token id c =
    if is_some (Dict.get id c.tokens)
    then (done, record c { tokens = Dict.remove id c.tokens })
    else (http_error 404, c)
