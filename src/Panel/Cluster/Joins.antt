-- ===== src/Panel/Cluster/Joins.antt =====
-- How often a join token of panel/backend/src/aipanel/api/v1/cluster.py lets a node in.
use aipanel.Base.{
  ℕ, ◌+◌, ◌≡◌, ◌≤◌, refl, sym, ap, subst, ◌∙◌, String, true, not, ◌&&◌, ◌||◌, List, [], ◌∷◌, Option,
  none, some, is_some, length, leb, ltb, if◌then◌else◌, if-true, if-false, either_way, ◌==◌,
  string_Key, nat_Key, arith, Bool-cases, inl, inr,
}
use aipanel.Base.Dict
use aipanel.Base.Dict.{Dict}
use aipanel.Panel.Auth.{Access, unauthorized, forbidden, granted, require_role}
use aipanel.Panel.Cluster.{
  Node, NodeJoinToken, Cluster, Outside, JoinRequest, JoinTokenCreate, NodeRole, size, values,
  all_loaded, not_down, list_nodes, cluster_health, list_join_tokens, new_token, Reply,
  token_created, joined, find_token, add_token, create_join_token, revoke_join_token, nodes_reply,
  healthy_nodes, node_reply, done, http_error,
}
use aipanel.Panel.Cluster.Join.{find_node, consume, join_as, join_with, join, new_node}
use aipanel.Panel.Cluster.Upkeep.{
  drain_node, unlink, remove_node, remove_row, update_node_role, set_role, on_node, drained,
  with_role,
}
use aipanel.Panel.Cluster.Routes.{
  Request, get_nodes, get_health, get_tokens, post_token, delete_token, post_join, post_drain,
  delete_node, patch_node, serve, for_user, handle, Asked, run,
}
use aipanel.Panel.Cluster.Tokens.{
  fresh, unused, is_open, unused-put, unused-remove, unused-unlink, unused-consume,
}

-- Whether an answer is that of a node let in with the hash, or of a token made with it.
abbrev lets_in : String → Outside → Request → Reply → ℕ
lets_in h o (post_join id body) (joined node_id role) = if o.sha256 body.token == h then 1 else 0
lets_in h o request reply = 0

abbrev makes : String → Reply → ℕ
makes h (token_created id raw tok) = fresh h tok
makes h reply = 0

-- What a request may do to the unused tokens.
abbrev Spends : String → Outside → Request → Cluster → Reply × Cluster → Type 0
Spends h o request c r =
    lets_in h o request r.0 + unused h r.1.tokens ≤ unused h c.tokens + makes h r.0

create_join_token-Spends :
    (h : String) (o : Outside) (now user_id id : ℕ) (raw : String) (body : JoinTokenCreate)
    (c : Cluster)
    → Spends h o (post_token id raw body) c (create_join_token o now user_id id raw body c)
unfolding create_join_token
create_join_token-Spends h o now user_id id raw body c =
    let tok = new_token o now user_id raw body in
    either_way (Spends h o (post_token id raw body) c)
      (leb (size body.label) 200 && (leb 5 body.ttl_minutes && leb body.ttl_minutes 1440))
      (add_token id raw tok c) (http_error 422, c)
      (either_way (Spends h o (post_token id raw body) c)
        (is_some (Dict.get id c.tokens) || is_some (find_token tok.token_hash c.tokens))
        (http_error 500, c)
        (token_created id raw tok, record c { tokens = Dict.put id tok c.tokens }) (omega arith)
        (omega (arith, unused-put h id tok c.tokens)))
      (omega arith)

revoke_join_token-Spends :
    (h : String) (o : Outside) (id : ℕ) (c : Cluster)
    → Spends h o (delete_token id) c (revoke_join_token id c)
unfolding revoke_join_token
revoke_join_token-Spends h o id c =
    either_way (Spends h o (delete_token id) c) (is_some (Dict.get id c.tokens))
      (done, record c { tokens = Dict.remove id c.tokens }) (http_error 404, c)
      (omega (arith, unused-remove h id c.tokens)) (omega arith)

join_as-Spends :
    (h : String) (o : Outside) (now id : ℕ) (body : JoinRequest) (tok : NodeJoinToken)
    (there : Option Node) (c : Cluster)
    → is_open (find_token (o.sha256 body.token) c.tokens) ≡ true
    → Spends h o (post_join id body) c (join_as o now id body tok there c)
join_as-Spends h o now id body tok (some n) c left = omega arith
join_as-Spends h o now id body tok none c left =
    let spent = unused-consume h (o.sha256 body.token) now id c.tokens left in
    either_way (Spends h o (post_join id body) c)
      (is_some (Dict.get id c.nodes) || not (o.loads tok.role)) (http_error 500, c)
      (
        joined id tok.role,
        record c {
          nodes = Dict.put id (new_node now body.hostname tok.role) c.nodes;
          tokens = consume (o.sha256 body.token) now id c.tokens;
        },
      )
      (omega arith) (omega (arith, spent))

join_with-Spends :
    (h : String) (o : Outside) (now id : ℕ) (body : JoinRequest) (found : Option NodeJoinToken)
    (c : Cluster)
    → find_token (o.sha256 body.token) c.tokens ≡ found
    → Spends h o (post_join id body) c (join_with o now id body found c)
join_with-Spends h o now id body none c e = omega arith
join_with-Spends h o now id body (some tok) c e = elim (Bool-cases (is_some tok.consumed_at)) [
  | inl used ↦
      subst (Spends h o (post_join id body) c) (sym (if-true (is_some tok.consumed_at) _ _ used))
        (omega arith)
  | inr unread ↦
      subst (Spends h o (post_join id body) c) (sym (if-false (is_some tok.consumed_at) _ _ unread))
        (either_way (Spends h o (post_join id body) c) (ltb tok.expires_at now) (http_error 410, c)
          (join_as o now id body tok (find_node body.hostname c.nodes) c) (omega arith)
          (join_as-Spends h o now id body tok (find_node body.hostname c.nodes) c
            (ap is_open e ∙ ground (arith, unread))))
]

join-Spends :
    (h : String) (o : Outside) (now id : ℕ) (body : JoinRequest) (c : Cluster)
    → Spends h o (post_join id body) c (join o now id body c)
unfolding join
join-Spends h o now id body c =
    either_way (Spends h o (post_join id body) c)
      ((leb 20 (size body.token) && leb (size body.token) 512)
        && (leb 1 (size body.hostname) && leb (size body.hostname) 253))
      (join_with o now id body (find_token (o.sha256 body.token) c.tokens) c) (http_error 422, c)
      (join_with-Spends h o now id body (find_token (o.sha256 body.token) c.tokens) c refl)
      (omega arith)

-- The routes over the nodes neither let in nor make a token.
on_node-Spends :
    (h : String) (o : Outside) (request : Request) (act : Node → Reply × Cluster)
    (there : Option Node) (c : Cluster)
    → ((code : ℕ) → Spends h o request c (http_error code, c))
    → ((n : Node) → Spends h o request c (act n))
    → Spends h o request c (on_node o act there c)
on_node-Spends h o request act none c fails acts = fails 404
on_node-Spends h o request act (some n) c fails acts =
    either_way (Spends h o request c) (o.loads n.role) (act n) (http_error 500, c) (acts n)
      (fails 500)

drain_node-Spends :
    (h : String) (o : Outside) (now id : ℕ) (c : Cluster)
    → Spends h o (post_drain id) c (drain_node o now id c)
unfolding drain_node
drain_node-Spends h o now id c =
    on_node-Spends h o (post_drain id)
      (λ n. (done, record c { nodes = Dict.put id (drained now n) c.nodes })) (Dict.get id c.nodes)
      c (λ code. omega arith) (λ n. omega arith)

remove_node-Spends :
    (h : String) (o : Outside) (id : ℕ) (c : Cluster)
    → Spends h o (delete_node id) c (remove_node o id c)
unfolding remove_node
remove_node-Spends h o id c =
    on_node-Spends h o (delete_node id) (remove_row id c) (Dict.get id c.nodes) c
      (λ code. omega arith)
      (λ n.
        either_way (Spends h o (delete_node id) c)
          (n.role == "primary"
            || not (n.status == "down" || (n.status == "drained" || n.status == "draining")))
          (http_error 400, c)
          (done, record { nodes = Dict.remove id c.nodes; tokens = unlink id c.tokens })
          (omega arith) (omega (arith, unused-unlink h id c.tokens)))

update_node_role-Spends :
    (h : String) (o : Outside) (id : ℕ) (role : NodeRole) (c : Cluster)
    → Spends h o (patch_node id role) c (update_node_role o id role c)
unfolding update_node_role
update_node_role-Spends h o id role c =
    on_node-Spends h o (patch_node id role) (set_role id role c) (Dict.get id c.nodes) c
      (λ code. omega arith)
      (λ n.
        either_way (Spends h o (patch_node id role) c) (n.role == "primary") (http_error 400, c)
          (
            node_reply (with_role role n),
            record c { nodes = Dict.put id (with_role role n) c.nodes },
          )
          (omega arith) (omega arith))

serve-Spends :
    (h : String) (o : Outside) (now user_id : ℕ) (request : Request) (c : Cluster)
    → Spends h o request c (serve o now user_id request c)
unfolding serve list_nodes cluster_health list_join_tokens
serve-Spends h o now user_id get_nodes c =
    either_way (λ r. Spends h o get_nodes c (r, c)) (all_loaded o (values c.nodes))
      (nodes_reply (o.order_nodes (values c.nodes))) (http_error 500) (omega arith) (omega arith)
serve-Spends h o now user_id get_health c =
    let rows = not_down (values c.nodes) in
    either_way (λ r. Spends h o get_health c (r, c)) (all_loaded o rows)
      (healthy_nodes (length rows)) (http_error 500) (omega arith) (omega arith)
serve-Spends h o now user_id get_tokens c = omega arith
serve-Spends h o now user_id (post_token id raw body) c =
    create_join_token-Spends h o now user_id id raw body c
serve-Spends h o now user_id (delete_token id) c = revoke_join_token-Spends h o id c
serve-Spends h o now user_id (post_join id body) c = join-Spends h o now id body c
serve-Spends h o now user_id (post_drain id) c = drain_node-Spends h o now id c
serve-Spends h o now user_id (delete_node id) c = remove_node-Spends h o id c
serve-Spends h o now user_id (patch_node id role) c = update_node_role-Spends h o id role c

-- A request that is refused.
refused-Spends :
    (h : String) (o : Outside) (code : ℕ) (request : Request) (c : Cluster)
    → Spends h o request c (http_error code, c)
refused-Spends h o code get_nodes c = omega arith
refused-Spends h o code get_health c = omega arith
refused-Spends h o code get_tokens c = omega arith
refused-Spends h o code (post_token id raw body) c = omega arith
refused-Spends h o code (delete_token id) c = omega arith
refused-Spends h o code (post_join id body) c = omega arith
refused-Spends h o code (post_drain id) c = omega arith
refused-Spends h o code (delete_node id) c = omega arith
refused-Spends h o code (patch_node id role) c = omega arith

for_user-Spends :
    (h : String) (o : Outside) (now : ℕ) (request : Request) (access : Access) (c : Cluster)
    → Spends h o request c (for_user o now request access c)
for_user-Spends h o now request unauthorized c = refused-Spends h o 401 request c
for_user-Spends h o now request forbidden c = refused-Spends h o 403 request c
for_user-Spends h o now request (granted user) c = serve-Spends h o now user.id request c

handle-Spends :
    (h : String) (o : Outside) (now : ℕ) (access : Access) (request : Request) (c : Cluster)
    → Spends h o request c (handle o now access request c)
unfolding handle
handle-Spends h o now access (post_join id body) c = join-Spends h o now id body c
handle-Spends h o now access get_nodes c = for_user-Spends h o now get_nodes access c
handle-Spends h o now access get_health c = for_user-Spends h o now get_health access c
handle-Spends h o now access get_tokens c =
    for_user-Spends h o now get_tokens (require_role ("admin" ∷ []) access) c
handle-Spends h o now access (post_token id raw body) c =
    for_user-Spends h o now (post_token id raw body) (require_role ("admin" ∷ []) access) c
handle-Spends h o now access (delete_token id) c =
    for_user-Spends h o now (delete_token id) (require_role ("admin" ∷ []) access) c
handle-Spends h o now access (post_drain id) c =
    for_user-Spends h o now (post_drain id) (require_role ("admin" ∷ []) access) c
handle-Spends h o now access (delete_node id) c =
    for_user-Spends h o now (delete_node id) (require_role ("admin" ∷ []) access) c
handle-Spends h o now access (patch_node id role) c =
    for_user-Spends h o now (patch_node id role) (require_role ("admin" ∷ []) access) c

-- How many nodes the requests let in with a hash, and how many tokens they make with it.
unfoldable pub joins : String → Outside → List Asked → Cluster → ℕ
joins h o [] c = 0
joins h o (a ∷ asked) c =
    let r = handle o a.now a.access a.request c in lets_in h o a.request r.0 + joins h o asked r.1

pub creations : String → Outside → List Asked → Cluster → ℕ
creations h o [] c = 0
creations h o (a ∷ asked) c =
    let r = handle o a.now a.access a.request c in makes h r.0 + creations h o asked r.1

-- Whatever is asked, by whom and in whatever order, one request after another: as many nodes are let in
-- with tokens of a hash as there were unused ones at first or were created, at most, less those that are
-- still unused. So a token that was created once lets one node in.
pub joins-creations :
    (h : String) (o : Outside) (asked : List Asked) (c : Cluster)
    → joins h o asked c + unused h (run o asked c).tokens
      ≤ unused h c.tokens + creations h o asked c
unfolding joins creations run
joins-creations h o [] c = omega arith
joins-creations h o (a ∷ asked) c =
    let r = handle o a.now a.access a.request c in
    omega (arith, handle-Spends h o a.now a.access a.request c, joins-creations h o asked r.1)
