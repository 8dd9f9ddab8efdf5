-- ===== src/Panel/Cluster/Routes.antt =====
-- The routes of panel/backend/src/aipanel/api/v1/cluster.py, behind the users and roles that they ask for.
use aipanel.Base.{ℕ, String, Bool, true, false, List, [], ◌∷◌, if◌then◌else◌, string_Key, nat_Key}
use aipanel.Panel.Auth.{Access, unauthorized, forbidden, granted, require_role}
use aipanel.Panel.Cluster.{
  Cluster, JoinRequest, JoinTokenCreate, NodeRole, Outside, Reply, cluster_health,
  create_join_token, http_error, list_join_tokens, list_nodes, revoke_join_token,
}
use aipanel.Panel.Cluster.Join.{join}
use aipanel.Panel.Cluster.Upkeep.{drain_node, remove_node, update_node_role}

-- The routes, each with the ids that it makes.
pub data Request : Type 0 where
  get_nodes get_health get_tokens : Request
  post_token : ℕ → String → JoinTokenCreate → Request
  delete_token : ℕ → Request
  post_join : ℕ → JoinRequest → Request
  post_drain delete_node : ℕ → Request
  patch_node : ℕ → NodeRole → Request

unfoldable pub serve : Outside → ℕ → ℕ → Request → Cluster → Reply × Cluster
serve o now user_id get_nodes c = (list_nodes o c, c)
serve o now user_id get_health c = (cluster_health o c, c)
serve o now user_id get_tokens c = (list_join_tokens o c, c)
serve o now user_id (post_token id raw body) c = create_join_token o now user_id id raw body c
serve o now user_id (delete_token id) c = revoke_join_token id c
serve o now user_id (post_join id body) c = join o now id body c
serve o now user_id (post_drain id) c = drain_node o now id c
serve o now user_id (delete_node id) c = remove_node o id c
serve o now user_id (patch_node id role) c = update_node_role o id role c

abbrev is_read : Request → Bool
is_read get_nodes = true
is_read get_health = true
is_read get_tokens = false
is_read (post_token id raw body) = false
is_read (delete_token id) = false
is_read (post_join id body) = false
is_read (post_drain id) = false
is_read (delete_node id) = false
is_read (patch_node id role) = false

-- `CurrentUser` and `require_admin`; a node that joins has no user.
abbrev pub for_user : Outside → ℕ → Request → Access → Cluster → Reply × Cluster
for_user o now request unauthorized c = (http_error 401, c)
for_user o now request forbidden c = (http_error 403, c)
for_user o now request (granted user) c = serve o now user.id request c

abbrev guarded : Outside → ℕ → Access → Request → Cluster → Reply × Cluster
guarded o now access request c =
    for_user o now request (if is_read request then access else require_role ("admin" ∷ []) access)
      c

unfoldable pub handle : Outside → ℕ → Access → Request → Cluster → Reply × Cluster
handle o now access (post_join id body) c = join o now id body c
handle o now access get_nodes c = guarded o now access get_nodes c
handle o now access get_health c = guarded o now access get_health c
handle o now access get_tokens c = guarded o now access get_tokens c
handle o now access (post_token id raw body) c = guarded o now access (post_token id raw body) c
handle o now access (delete_token id) c = guarded o now access (delete_token id) c
handle o now access (post_drain id) c = guarded o now access (post_drain id) c
handle o now access (delete_node id) c = guarded o now access (delete_node id) c
handle o now access (patch_node id role) c = guarded o now access (patch_node id role) c

-- Requests one after another, each with its time and its user.
pub record Asked : Type 0 where
  pub now : ℕ
  pub access : Access
  pub request : Request

unfoldable pub run : Outside → List Asked → Cluster → Cluster
run o [] c = c
run o (a ∷ asked) c = run o asked (handle o a.now a.access a.request c).1
