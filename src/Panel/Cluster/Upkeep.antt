-- ===== src/Panel/Cluster/Upkeep.antt =====
-- What an admin does with a node, in panel/backend/src/aipanel/api/v1/cluster.py.
use aipanel.Base.{
  ℕ, Bool, false, not, ◌||◌, [], ◌∷◌, Option, none, some, nat_eq, if◌then◌else◌, ◌==◌, string_Key,
  nat_Key,
}
use aipanel.Base.Dict
use aipanel.Base.Dict.{Dict}
use aipanel.Panel.Cluster.{
  Cluster, Node, NodeJoinToken, NodeRole, Outside, Reply, done, http_error, node_reply, role_text,
}

-- What is done with a node that is there and can be read.
abbrev pub on_node : Outside → (Node → Reply × Cluster) → Option Node → Cluster → Reply × Cluster
on_node o act none c = (http_error 404, c)
on_node o act (some n) c = if o.loads n.role then act n else (http_error 500, c)

abbrev pub drained : ℕ → Node → Node
drained now n = record n { drained_at = some now; status = "draining" }

unfoldable pub drain_node : Outside → ℕ → ℕ → Cluster → Reply × Cluster
drain_node o now id c =
    on_node o (λ n. (done, record c { nodes = Dict.put id (drained now n) c.nodes }))
      (Dict.get id c.nodes) c

-- `ON DELETE SET NULL`.
abbrev points_to : ℕ → Option ℕ → Bool
points_to id none = false
points_to id (some node_id) = nat_eq node_id id

unfoldable pub unlink : ℕ → Dict ℕ NodeJoinToken → Dict ℕ NodeJoinToken
unlink node_id [] = []
unlink node_id ((id, tok) ∷ tokens) =
    (if points_to node_id tok.consumed_by_node
      then (id, record tok { consumed_by_node = none })
      else (id, tok))
    ∷ unlink node_id tokens

abbrev pub remove_row : ℕ → Cluster → Node → Reply × Cluster
remove_row id c n =
    if n.role == "primary"
      || not (n.status == "down" || (n.status == "drained" || n.status == "draining"))
    then (http_error 400, c)
    else (done, record { nodes = Dict.remove id c.nodes; tokens = unlink id c.tokens })

unfoldable pub remove_node : Outside → ℕ → Cluster → Reply × Cluster
remove_node o id c = on_node o (remove_row id c) (Dict.get id c.nodes) c

abbrev pub with_role : NodeRole → Node → Node
with_role role n = record n { role = role_text role }

abbrev pub set_role : ℕ → NodeRole → Cluster → Node → Reply × Cluster
set_role id role c n = if n.role == "primary" then (http_error 400, c) else (
  node_reply (with_role role n),
  record c { nodes = Dict.put id (with_role role n) c.nodes },
)

unfoldable pub update_node_role : Outside → ℕ → NodeRole → Cluster → Reply × Cluster
update_node_role o id role c = on_node o (set_role id role c) (Dict.get id c.nodes) c
