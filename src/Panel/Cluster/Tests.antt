-- ===== src/Panel/Cluster/Tests.antt =====
-- A cluster in concrete situations: an admin makes a token, two nodes try to join with it, and an admin tries to
-- remove the primary node. SHA-256 is the identity.
use aipanel.Base.{
  ◌+◌, ◌≡◌, ◌≤◌, refl, String, true, ◌||◌, List, [], ◌∷◌, none, ◌==◌, string_Key, nat_Key,
}
use aipanel.Base.Dict
use aipanel.Panel.Auth.{User, granted, unauthorized, require_role}
use aipanel.Panel.Cluster.{Cluster, Outside, gpu, create_join_token, NodeJoinToken}
use aipanel.Panel.Cluster.Routes.{Asked, run, post_token, post_join, delete_node, handle, serve}
use aipanel.Panel.Cluster.Join.{join, consume}
use aipanel.Panel.Cluster.Upkeep.{remove_node}
use aipanel.Panel.Cluster.Tokens.{unused}
use aipanel.Panel.Cluster.Joins.{joins, creations, joins-creations}
use aipanel.Panel.Cluster.Refused.{Fails, join-Fails}

abbrev outside : Outside
outside = record {
  sha256 = λ s. s;
  order_nodes = λ nodes. nodes;
  order_tokens = λ tokens. tokens;
  loads = λ role. true;
}

-- The Enum of the column `nodes.role`.
abbrev declared : Outside
declared = record outside { loads = λ role. role == "primary" || role == "secondary" }

abbrev admin : User
admin = record { id = 1; tenant_id = 1; role = "admin"; email = ""; password_hash = "" }

abbrev cluster : Cluster
cluster = record {
  nodes =
      (
        0,
        record {
          hostname = "main";
          role = "primary";
          services = [];
          status = "down";
          joined_at = 0;
          drained_at = none;
        },
      )
      ∷ [];
  tokens = [];
}

abbrev raw : String
raw = "AIPANEL-0123456789ab"

abbrev asked : List Asked
asked =
    record {
      now = 0;
      access = granted admin;
      request = post_token 1 raw (record { role = gpu; label = ""; ttl_minutes = 60 });
    }
    ∷ record {
      now = 9;
      access = unauthorized;
      request = post_join 1 (record { token = raw; hostname = "g1" });
    }
    ∷ record {
      now = 9;
      access = unauthorized;
      request = post_join 2 (record { token = raw; hostname = "g2" });
    }
    ∷ record { now = 10; access = granted admin; request = delete_node 0 }
    ∷ []

joins-creations_example :
    joins raw outside asked cluster + unused raw (run outside asked cluster).tokens
    ≤ unused raw cluster.tokens + creations raw outside asked cluster
joins-creations_example = joins-creations raw outside asked cluster

-- One of the two joins.
one_joins : joins raw outside asked cluster ≡ 1
unfolding joins handle serve create_join_token join consume remove_node require_role Dict.get
    Dict.put
one_joins = refl

abbrev token : NodeJoinToken
token = record {
  token_hash = raw;
  role = "gpu";
  label = "";
  created_by = 1;
  created_at = 0;
  expires_at = 3600;
  consumed_at = none;
  consumed_by_node = none;
}

join-Fails_example :
    Fails
      (record cluster { tokens = (1, token) ∷ [] })
      (join declared 9 1
        (record { token = raw; hostname = "g1" })
        (record cluster { tokens = (1, token) ∷ [] }))
join-Fails_example =
    join-Fails declared 9 1 (record { token = raw; hostname = "g1" })
      (record cluster { tokens = (1, token) ∷ [] }) (refl, tt)
