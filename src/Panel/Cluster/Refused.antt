-- ===== src/Panel/Cluster/Refused.antt =====
-- What becomes of a join while the ORM does not take back the role of the new node, in
-- panel/backend/src/aipanel/api/v1/cluster.py.
use aipanel.Base.{
  All, ℕ, ◌≡◌, refl, String, false, not, ◌&&◌, ◌||◌, [], ◌∷◌, Option, none, some, is_some, leb, ltb,
  if◌then◌else◌, if-true, either_way, ◌==◌, string_Key, nat_Key, arith,
}
use aipanel.Base.Dict
use aipanel.Base.Dict.{Dict}
use aipanel.Panel.Cluster.{
  Node, NodeJoinToken, Cluster, Outside, JoinRequest, size, Reply, find_token, http_error,
}
use aipanel.Panel.Cluster.Join.{find_node, join_as, join_with, join}

-- No row of the tokens has a role that the ORM takes back for a node.
abbrev AllUnloaded : Outside → Dict ℕ NodeJoinToken → Type 0
AllUnloaded o tokens = All (λ (row : ℕ × NodeJoinToken). o.loads row.1.role ≡ false) tokens

abbrev pub Fails : Cluster → Reply × Cluster → Type 0
Fails c r = (code : ℕ) × (r ≡ (http_error code, c))

abbrev UnloadedIf : Outside → Option NodeJoinToken → Type 0
UnloadedIf o none = Unit
UnloadedIf o (some tok) = o.loads tok.role ≡ false

find_token-Unloaded :
    (o : Outside) (h : String) (tokens : Dict ℕ NodeJoinToken)
    → AllUnloaded o tokens
    → UnloadedIf o (find_token h tokens)
find_token-Unloaded o h [] all = tt
find_token-Unloaded o h ((id, tok) ∷ tokens) (head, all) =
    either_way (UnloadedIf o) (tok.token_hash == h) (some tok) (find_token h tokens) head
      (find_token-Unloaded o h tokens all)

join_as-Fails :
    (o : Outside) (now id : ℕ) (body : JoinRequest) (tok : NodeJoinToken) (there : Option Node)
    (c : Cluster)
    → o.loads tok.role ≡ false
    → Fails c (join_as o now id body tok there c)
join_as-Fails o now id body tok (some n) c unread = (if o.loads n.role then 409 else 500, refl)
join_as-Fails o now id body tok none c unread = (
  500,
  if-true (is_some (Dict.get id c.nodes) || not (o.loads tok.role)) _ _ (ground (arith, unread)),
)

join_with-Fails :
    (o : Outside) (now id : ℕ) (body : JoinRequest) (found : Option NodeJoinToken) (c : Cluster)
    → UnloadedIf o found
    → Fails c (join_with o now id body found c)
join_with-Fails o now id body none c unread = (403, refl)
join_with-Fails o now id body (some tok) c unread =
    let timely = join_as o now id body tok (find_node body.hostname c.nodes) c in
    either_way (Fails c) (is_some tok.consumed_at) (http_error 409, c)
      (if ltb tok.expires_at now then (http_error 410, c) else timely) (409, refl)
      (either_way (Fails c) (ltb tok.expires_at now) (http_error 410, c) timely (410, refl)
        (join_as-Fails o now id body tok (find_node body.hostname c.nodes) c unread))

-- While the ORM takes back the role of none of the tokens, as with an Enum of primary and secondary, every
-- join is answered with an error and leaves the cluster as it was.
pub join-Fails :
    (o : Outside) (now id : ℕ) (body : JoinRequest) (c : Cluster)
    → AllUnloaded o c.tokens
    → Fails c (join o now id body c)
unfolding join
join-Fails o now id body c unread =
    either_way (Fails c)
      ((leb 20 (size body.token) && leb (size body.token) 512)
        && (leb 1 (size body.hostname) && leb (size body.hostname) 253))
      (join_with o now id body (find_token (o.sha256 body.token) c.tokens) c) (http_error 422, c)
      (join_with-Fails o now id body (find_token (o.sha256 body.token) c.tokens) c
        (find_token-Unloaded o (o.sha256 body.token) c.tokens unread))
      (422, refl)
