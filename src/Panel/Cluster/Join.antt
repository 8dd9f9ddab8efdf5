-- ===== src/Panel/Cluster/Join.antt =====
-- How a node joins the cluster, in panel/backend/src/aipanel/api/v1/cluster.py.
use aipanel.Base.{
  ℕ, String, not, ◌&&◌, ◌||◌, List, [], ◌∷◌, Option, none, some, is_some, leb, ltb, if◌then◌else◌,
  ◌==◌, string_Key, nat_Key,
}
use aipanel.Base.Dict
use aipanel.Base.Dict.{Dict}
use aipanel.Panel.Cluster.{
  Cluster, JoinRequest, Node, NodeJoinToken, Outside, Reply, find_token, http_error, joined, size,
}

-- `services_for`.
abbrev services_for : String → List String
services_for role =
    if role == "gpu"
    then "aipanel-llm" ∷ "aipanel-stt" ∷ "aipanel-tts" ∷ []
    else if role == "app"
    then "aipanel-web" ∷ "aipanel-jobs" ∷ "aipanel-workers" ∷ "aipanel-session-mgr" ∷ []
    else if role == "sip"
    then "aipanel-sip" ∷ []
    else if role == "mixed"
    then "aipanel-web" ∷ "aipanel-jobs" ∷ "aipanel-workers" ∷ "aipanel-session-mgr" ∷ "aipanel-llm"
      ∷ "aipanel-stt" ∷ "aipanel-tts" ∷ "aipanel-sip" ∷ []
    else []

abbrev pub new_node : ℕ → String → String → Node
new_node now hostname role = record {
  hostname = hostname;
  role = role;
  services = services_for role;
  status = "joining";
  joined_at = now;
  drained_at = none;
}

abbrev pub find_node : String → Dict ℕ Node → Option Node
find_node hostname [] = none
find_node hostname ((id, n) ∷ nodes) =
    if n.hostname == hostname then some n else find_node hostname nodes

-- The row of the token is written once the node is there.
unfoldable pub consume : String → ℕ → ℕ → Dict ℕ NodeJoinToken → Dict ℕ NodeJoinToken
consume h now node_id [] = []
consume h now node_id ((id, tok) ∷ tokens) =
    if tok.token_hash == h
    then (id, record tok { consumed_at = some now; consumed_by_node = some node_id }) ∷ tokens
    else (id, tok) ∷ consume h now node_id tokens

-- The new node is read back.
abbrev join_new : Outside → ℕ → ℕ → JoinRequest → NodeJoinToken → Cluster → Reply × Cluster
join_new o now id body tok c =
    if is_some (Dict.get id c.nodes) || not (o.loads tok.role) then (http_error 500, c) else (
      joined id tok.role,
      record c {
        nodes = Dict.put id (new_node now body.hostname tok.role) c.nodes;
        tokens = consume (o.sha256 body.token) now id c.tokens;
      },
    )

abbrev pub join_as :
    Outside → ℕ → ℕ → JoinRequest → NodeJoinToken → Option Node → Cluster → Reply × Cluster
join_as o now id body tok (some n) c = (http_error (if o.loads n.role then 409 else 500), c)
join_as o now id body tok none c = join_new o now id body tok c

abbrev pub join_with :
    Outside → ℕ → ℕ → JoinRequest → Option NodeJoinToken → Cluster → Reply × Cluster
join_with o now id body none c = (http_error 403, c)
join_with o now id body (some tok) c =
    if is_some tok.consumed_at
    then (http_error 409, c)
    else if ltb tok.expires_at now
    then (http_error 410, c)
    else join_as o now id body tok (find_node body.hostname c.nodes) c

unfoldable pub join : Outside → ℕ → ℕ → JoinRequest → Cluster → Reply × Cluster
join o now id body c =
    if (leb 20 (size body.token) && leb (size body.token) 512)
      && (leb 1 (size body.hostname) && leb (size body.hostname) 253)
    then join_with o now id body (find_token (o.sha256 body.token) c.tokens) c
    else (http_error 422, c)
