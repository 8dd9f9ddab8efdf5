-- ===== src/Panel/Cluster/Primary.antt =====
-- The primary node of the cluster stays, in panel/backend/src/aipanel/api/v1/cluster.py.
use aipanel.Base.{
  ℕ, ◌≡◌, refl, sym, ap, subst, ◌∙◌, Bool, true, false, not, ◌&&◌, ◌||◌, List, [], ◌∷◌, Option,
  none, some, is_some, leb, ltb, if◌then◌else◌, if-true, if-false, either_way, ◌==◌, string_Key,
  nat_eq, nat_Key, arith, Bool-cases, inl, inr,
}
use aipanel.Base.Dict
use aipanel.Base.Dict.{Dict}
use aipanel.Panel.Auth.{Access, unauthorized, forbidden, granted, require_role}
use aipanel.Panel.Cluster.{
  Node, NodeJoinToken, Cluster, Outside, JoinRequest, NodeRole, size, new_token, Reply,
  token_created, find_token, add_token, create_join_token, revoke_join_token, done, http_error,
}
use aipanel.Panel.Cluster.Join.{find_node, join_as, join_with, join, new_node}
use aipanel.Panel.Cluster.Upkeep.{
  drain_node, remove_node, remove_row, update_node_role, set_role, on_node, drained, with_role,
}
use aipanel.Panel.Cluster.Routes.{
  Request, get_nodes, get_health, get_tokens, post_token, delete_token, post_join, post_drain,
  delete_node, patch_node, serve, for_user, handle, Asked, run,
}

-- Whether a node is there and is the primary one.
abbrev primary : Option Node → Bool
primary none = false
primary (some n) = n.role == "primary"

abbrev IsPrimary : ℕ → Cluster → Type 0
IsPrimary j c = primary (Dict.get j c.nodes) ≡ true

put-primary :
    (id j : ℕ) (n : Node) (nodes : Dict ℕ Node)
    → (primary (Dict.get id nodes) ≡ true → (n.role == "primary") ≡ true)
    → primary (Dict.get j nodes) ≡ true
    → primary (Dict.get j (Dict.put id n nodes)) ≡ true
put-primary id j n nodes keeps v = elim (Bool-cases (nat_eq id j)) [
  | inr other ↦ ap primary (Dict.get-put id j n nodes ∙ if-false (nat_eq id j) _ _ other) ∙ v
  | inl this ↦
      let same : id ≡ j = ground (arith, this) in
      ap primary (Dict.get-put id j n nodes ∙ if-true (nat_eq id j) _ _ this)
      ∙ keeps (subst (λ k. primary (Dict.get k nodes) ≡ true) (sym same) v)
]

-- A node that is not the primary one is another.
remove-primary :
    (id j : ℕ) (nodes : Dict ℕ Node)
    → primary (Dict.get id nodes) ≡ false
    → primary (Dict.get j nodes) ≡ true
    → primary (Dict.get j (Dict.remove id nodes)) ≡ true
remove-primary id j nodes lesser v = elim (Bool-cases (nat_eq id j)) [
  | inr other ↦ ap primary (Dict.get-remove id j nodes ∙ if-false (nat_eq id j) _ _ other) ∙ v
  | inl this ↦
      let same : id ≡ j = ground (arith, this) in
      let bad = subst (λ k. primary (Dict.get k nodes) ≡ false) same lesser in
      absurd (ground (arith, bad, v))
]

abbrev Keeps : ℕ → Reply × Cluster → Type 0
Keeps j r = IsPrimary j r.1

no_primary :
    (there : Option Node) (b : Bool) → is_some there ≡ false → primary there ≡ true → b ≡ true
no_primary none b free v = absurd (ground (arith, v))
no_primary (some n) b free v = absurd (ground (arith, free))

join_as-Keeps :
    (j : ℕ) (o : Outside) (now id : ℕ) (body : JoinRequest) (tok : NodeJoinToken)
    (there : Option Node) (c : Cluster)
    → IsPrimary j c
    → Keeps j (join_as o now id body tok there c)
join_as-Keeps j o now id body tok (some n) c v = v
join_as-Keeps j o now id body tok none c v =
    elim (Bool-cases (is_some (Dict.get id c.nodes) || not (o.loads tok.role))) [
      | inl fails ↦
          subst (Keeps j)
            (sym (if-true (is_some (Dict.get id c.nodes) || not (o.loads tok.role)) _ _ fails)) v
      | inr goes ↦
          subst (Keeps j)
            (sym (if-false (is_some (Dict.get id c.nodes) || not (o.loads tok.role)) _ _ goes))
            (put-primary id j (new_node now body.hostname tok.role) c.nodes
              (no_primary (Dict.get id c.nodes) _ (ground (arith, goes))) v)
    ]

join_with-Keeps :
    (j : ℕ) (o : Outside) (now id : ℕ) (body : JoinRequest) (found : Option NodeJoinToken)
    (c : Cluster)
    → IsPrimary j c
    → Keeps j (join_with o now id body found c)
join_with-Keeps j o now id body none c v = v
join_with-Keeps j o now id body (some tok) c v =
    let there = find_node body.hostname c.nodes in
    let timely = join_as o now id body tok there c in
    either_way (Keeps j) (is_some tok.consumed_at) (http_error 409, c)
      (if ltb tok.expires_at now then (http_error 410, c) else timely) v
      (either_way (Keeps j) (ltb tok.expires_at now) (http_error 410, c) timely v
        (join_as-Keeps j o now id body tok there c v))

join-Keeps :
    (j : ℕ) (o : Outside) (now id : ℕ) (body : JoinRequest) (c : Cluster)
    → IsPrimary j c
    → Keeps j (join o now id body c)
unfolding join
join-Keeps j o now id body c v =
    either_way (Keeps j)
      ((leb 20 (size body.token) && leb (size body.token) 512)
        && (leb 1 (size body.hostname) && leb (size body.hostname) 253))
      (join_with o now id body (find_token (o.sha256 body.token) c.tokens) c) (http_error 422, c)
      (join_with-Keeps j o now id body (find_token (o.sha256 body.token) c.tokens) c v) v

on_node-Keeps :
    (j : ℕ) (o : Outside) (act : Node → Reply × Cluster) (there : Option Node) (c : Cluster)
    → IsPrimary j c
    → ((n : Node) → there ≡ some n → Keeps j (act n))
    → Keeps j (on_node o act there c)
on_node-Keeps j o act none c v acts = v
on_node-Keeps j o act (some n) c v acts =
    either_way (Keeps j) (o.loads n.role) (act n) (http_error 500, c) (acts n refl) v

drain_node-Keeps :
    (j : ℕ) (o : Outside) (now id : ℕ) (c : Cluster)
    → IsPrimary j c
    → Keeps j (drain_node o now id c)
unfolding drain_node
drain_node-Keeps j o now id c v =
    on_node-Keeps j o (λ n. (done, record c { nodes = Dict.put id (drained now n) c.nodes }))
      (Dict.get id c.nodes) c v
      (λ n e. put-primary id j (drained now n) c.nodes (λ h. ap primary (sym e) ∙ h) v)

remove_row-Keeps :
    (j id : ℕ) (c : Cluster) (n : Node)
    → Dict.get id c.nodes ≡ some n
    → IsPrimary j c
    → Keeps j (remove_row id c n)
remove_row-Keeps j id c n e v =
    let refused =
      n.role == "primary"
      || not (n.status == "down" || (n.status == "drained" || n.status == "draining")) in
    elim (Bool-cases refused) [
      | inl stays ↦ subst (Keeps j) (sym (if-true refused _ _ stays)) v
      | inr goes ↦
          subst (Keeps j) (sym (if-false refused _ _ goes))
            (remove-primary id j c.nodes (ap primary e ∙ ground (arith, goes)) v)
    ]

set_role-Keeps :
    (j id : ℕ) (role : NodeRole) (c : Cluster) (n : Node)
    → Dict.get id c.nodes ≡ some n
    → IsPrimary j c
    → Keeps j (set_role id role c n)
set_role-Keeps j id role c n e v = elim (Bool-cases (n.role == "primary")) [
  | inl stays ↦ subst (Keeps j) (sym (if-true (n.role == "primary") _ _ stays)) v
  | inr lesser ↦ subst (Keeps j) (sym (if-false (n.role == "primary") _ _ lesser)) (
      put-primary id j (with_role role n) c.nodes
        (λ h. absurd (ground (arith, lesser, sym (ap primary e) ∙ h))) v)
]

remove_node-Keeps :
    (j : ℕ) (o : Outside) (id : ℕ) (c : Cluster) → IsPrimary j c → Keeps j (remove_node o id c)
unfolding remove_node
remove_node-Keeps j o id c v =
    on_node-Keeps j o (remove_row id c) (Dict.get id c.nodes) c v
      (λ n e. remove_row-Keeps j id c n e v)

update_node_role-Keeps :
    (j : ℕ) (o : Outside) (id : ℕ) (role : NodeRole) (c : Cluster)
    → IsPrimary j c
    → Keeps j (update_node_role o id role c)
unfolding update_node_role
update_node_role-Keeps j o id role c v =
    on_node-Keeps j o (set_role id role c) (Dict.get id c.nodes) c v
      (λ n e. set_role-Keeps j id role c n e v)

serve-Keeps :
    (j : ℕ) (o : Outside) (now user_id : ℕ) (request : Request) (c : Cluster)
    → IsPrimary j c
    → Keeps j (serve o now user_id request c)
unfolding serve create_join_token revoke_join_token
serve-Keeps j o now user_id get_nodes c v = v
serve-Keeps j o now user_id get_health c v = v
serve-Keeps j o now user_id get_tokens c v = v
serve-Keeps j o now user_id (post_token id raw body) c v =
    let tok = new_token o now user_id raw body in
    either_way (Keeps j)
      (leb (size body.label) 200 && (leb 5 body.ttl_minutes && leb body.ttl_minutes 1440))
      (add_token id raw tok c) (http_error 422, c)
      (either_way (Keeps j)
        (is_some (Dict.get id c.tokens) || is_some (find_token tok.token_hash c.tokens))
        (http_error 500, c)
        (token_created id raw tok, record c { tokens = Dict.put id tok c.tokens }) v v)
      v
serve-Keeps j o now user_id (delete_token id) c v =
    either_way (Keeps j) (is_some (Dict.get id c.tokens))
      (done, record c { tokens = Dict.remove id c.tokens }) (http_error 404, c) v v
serve-Keeps j o now user_id (post_join id body) c v = join-Keeps j o now id body c v
serve-Keeps j o now user_id (post_drain id) c v = drain_node-Keeps j o now id c v
serve-Keeps j o now user_id (delete_node id) c v = remove_node-Keeps j o id c v
serve-Keeps j o now user_id (patch_node id role) c v = update_node_role-Keeps j o id role c v

for_user-Keeps :
    (j : ℕ) (o : Outside) (now : ℕ) (request : Request) (access : Access) (c : Cluster)
    → IsPrimary j c
    → Keeps j (for_user o now request access c)
for_user-Keeps j o now request unauthorized c v = v
for_user-Keeps j o now request forbidden c v = v
for_user-Keeps j o now request (granted user) c v = serve-Keeps j o now user.id request c v

handle-Keeps :
    (j : ℕ) (o : Outside) (now : ℕ) (access : Access) (request : Request) (c : Cluster)
    → IsPrimary j c
    → Keeps j (handle o now access request c)
unfolding handle
handle-Keeps j o now access (post_join id body) c v = join-Keeps j o now id body c v
handle-Keeps j o now access get_nodes c v = for_user-Keeps j o now get_nodes access c v
handle-Keeps j o now access get_health c v = for_user-Keeps j o now get_health access c v
handle-Keeps j o now access get_tokens c v =
    for_user-Keeps j o now get_tokens (require_role ("admin" ∷ []) access) c v
handle-Keeps j o now access (post_token id raw body) c v =
    for_user-Keeps j o now (post_token id raw body) (require_role ("admin" ∷ []) access) c v
handle-Keeps j o now access (delete_token id) c v =
    for_user-Keeps j o now (delete_token id) (require_role ("admin" ∷ []) access) c v
handle-Keeps j o now access (post_drain id) c v =
    for_user-Keeps j o now (post_drain id) (require_role ("admin" ∷ []) access) c v
handle-Keeps j o now access (delete_node id) c v =
    for_user-Keeps j o now (delete_node id) (require_role ("admin" ∷ []) access) c v
handle-Keeps j o now access (patch_node id role) c v =
    for_user-Keeps j o now (patch_node id role) (require_role ("admin" ∷ []) access) c v

-- Whatever is asked, by whom and in whatever order: a node that is there and is the primary one still is.
run-IsPrimary :
    (j : ℕ) (o : Outside) (asked : List Asked) (c : Cluster)
    → IsPrimary j c
    → IsPrimary j (run o asked c)
unfolding run
run-IsPrimary j o [] c v = v
run-IsPrimary j o (a ∷ asked) c v =
    run-IsPrimary j o asked (handle o a.now a.access a.request c).1
      (handle-Keeps j o a.now a.access a.request c v)
