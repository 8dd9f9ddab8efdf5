-- ===== src/Panel/Deployments.antt =====
-- panel/backend/src/aipanel/services/deployment_service.py, behind the users and roles that the routes of
-- api/v1/deployments.py ask for: the deployments of all tenants in one table. `encrypt` is Fernet's. The
-- calls of the session manager and the audit log are left out, and so are the times and the routes `pause`
-- and `live`, which only read the row.
pub mod Isolation
use aipanel.Base.{
  ℕ, ◌≡◌, String, Bool, true, false, not, ◌&&◌, ◌||◌, List, [], ◌∷◌, Option, none, some, length,
  take, drop, nat_eq, if◌then◌else◌, ◌==◌, string_Key, nat_Key,
}
use aipanel.Base.Dict
use aipanel.Base.Dict.{Dict}
use aipanel.Panel.Auth.{User, Access, unauthorized, forbidden, granted, require_role}

pub record Deployment : Type 0 where
  pub tenant_id : ℕ
  pub agent_id : ℕ
  pub vicidial_server_id : ℕ
  pub vici_user : String
  pub vici_pass_encrypted : String
  pub phone_login : String
  pub phone_pass_encrypted : String
  pub campaign_id : String
  pub aipanel_campaign_id : Option ℕ
  pub allowed_transfer_ingroups : List String
  pub dispo_mapping : Dict String String
  pub status : String

abbrev pub Table : Type 0
Table = Dict ℕ Deployment

pub record DeploymentCreate : Type 0 where
  pub agent_id : ℕ
  pub vicidial_server_id : ℕ
  pub vici_user : String
  pub vici_pass : String
  pub phone_login : String
  pub phone_pass : String
  pub campaign_id : String
  pub aipanel_campaign_id : Option ℕ
  pub allowed_transfer_ingroups : List String
  pub dispo_mapping : Dict String String

-- A field that is not set, or is null, is none.
pub record DeploymentUpdate : Type 0 where
  pub vici_user : Option String
  pub vici_pass : Option String
  pub phone_login : Option String
  pub phone_pass : Option String
  pub campaign_id : Option String
  pub aipanel_campaign_id : Option ℕ
  pub allowed_transfer_ingroups : Option (List String)
  pub dispo_mapping : Option (Dict String String)

pub data Reply : Type 0 where
  found : Deployment → Reply
  page : List Deployment → ℕ → Reply
  done : Reply
  http_error : ℕ → Reply

-- `get_deployment`: one of another tenant is not found.
abbrev pub own : ℕ → Option Deployment → Option Deployment
own tenant_id none = none
own tenant_id (some d) = if nat_eq d.tenant_id tenant_id then some d else none

pub get_deployment : ℕ → ℕ → Table → Option Deployment
get_deployment tenant_id deployment_id table = own tenant_id (Dict.get deployment_id table)

-- `list_deployments`; `order` is the order of the database, the last updated first.
abbrev pub is_listed : ℕ → Option String → Deployment → Bool
is_listed tenant_id none d = nat_eq d.tenant_id tenant_id
is_listed tenant_id (some status) d =
    nat_eq d.tenant_id tenant_id && (status == "" || d.status == status)

abbrev pub select : ℕ → Option String → Table → List Deployment
select tenant_id status [] = []
select tenant_id status ((id, d) ∷ table) =
    if is_listed tenant_id status d
    then d ∷ select tenant_id status table
    else select tenant_id status table

pub list_deployments :
    (List Deployment → List Deployment) → ℕ → ℕ → ℕ → Option String → Table → Reply
list_deployments order tenant_id limit offset status table =
    let rows = select tenant_id status table in
    page (take limit (drop offset (order rows))) (length rows)

-- `create_deployment`, under a new id; one that is taken is an error of the database.
abbrev pub new_deployment : (String → String) → ℕ → DeploymentCreate → Deployment
new_deployment encrypt tenant_id payload = record {
  tenant_id = tenant_id;
  agent_id = payload.agent_id;
  vicidial_server_id = payload.vicidial_server_id;
  vici_user = payload.vici_user;
  vici_pass_encrypted = encrypt payload.vici_pass;
  phone_login = payload.phone_login;
  phone_pass_encrypted = encrypt payload.phone_pass;
  campaign_id = payload.campaign_id;
  aipanel_campaign_id = none;
  allowed_transfer_ingroups = payload.allowed_transfer_ingroups;
  dispo_mapping = payload.dispo_mapping;
  status = "stopped";
}

abbrev pub insert : ℕ → Deployment → Option Deployment → Table → Reply × Table
insert id d (some taken) table = (http_error 500, table)
insert id d none table = (found d, Dict.put id d table)

pub create_deployment : (String → String) → ℕ → ℕ → DeploymentCreate → Table → Reply × Table
create_deployment encrypt tenant_id id payload table =
    insert id (new_deployment encrypt tenant_id payload) (Dict.get id table) table

-- What is written to a deployment that is found.
abbrev pub on_own : ℕ → (Deployment → Deployment) → Option Deployment → Table → Reply × Table
on_own id change none table = (http_error 404, table)
on_own id change (some d) table = (found (change d), Dict.put id (change d) table)

abbrev pub or_old {ℓ} : {A : Type ℓ} → A → Option A → A
or_old old none = old
or_old old (some new) = new

abbrev or_encrypted : (String → String) → String → Option String → String
or_encrypted encrypt old none = old
or_encrypted encrypt old (some new) = encrypt new

abbrev pub updated : (String → String) → DeploymentUpdate → Deployment → Deployment
updated encrypt u d = record d {
  vici_user = or_old d.vici_user u.vici_user;
  vici_pass_encrypted = or_encrypted encrypt d.vici_pass_encrypted u.vici_pass;
  phone_login = or_old d.phone_login u.phone_login;
  phone_pass_encrypted = or_encrypted encrypt d.phone_pass_encrypted u.phone_pass;
  campaign_id = or_old d.campaign_id u.campaign_id;
  allowed_transfer_ingroups = or_old d.allowed_transfer_ingroups u.allowed_transfer_ingroups;
  dispo_mapping = or_old d.dispo_mapping u.dispo_mapping;
}

pub update_deployment : (String → String) → ℕ → ℕ → DeploymentUpdate → Table → Reply × Table
update_deployment encrypt tenant_id id payload table =
    on_own id (updated encrypt payload) (get_deployment tenant_id id table) table

unfoldable pub set_status : ℕ → ℕ → String → Table → Reply × Table
set_status tenant_id id new_status table =
    on_own id (λ d. record d { status = new_status }) (get_deployment tenant_id id table) table

abbrev pub remove_own : ℕ → Option Deployment → Table → Reply × Table
remove_own id none table = (http_error 404, table)
remove_own id (some d) table = (done, Dict.remove id table)

pub delete_deployment : ℕ → ℕ → Table → Reply × Table
delete_deployment tenant_id id table = remove_own id (get_deployment tenant_id id table) table

abbrev pub reply_found : Option Deployment → Reply
reply_found none = http_error 404
reply_found (some d) = found d

-- The answer of `start` and `stop`, which is OkResponse where the row was found.
abbrev pub ok_reply : Reply → Reply
ok_reply (found d) = done
ok_reply (page rows total) = page rows total
ok_reply done = done
ok_reply (http_error code) = http_error code

abbrev acknowledge : Reply × Table → Reply × Table
acknowledge r = (ok_reply r.0, r.1)

-- The routes; the second argument of a create is the new id.
pub data Request : Type 0 where
  list : ℕ → ℕ → Option String → Request
  get start stop delete : ℕ → Request
  create : ℕ → DeploymentCreate → Request
  update : ℕ → DeploymentUpdate → Request

abbrev pub writes : Request → Bool
writes (list limit offset status) = false
writes (get id) = false
writes (start id) = true
writes (stop id) = true
writes (delete id) = true
writes (create id payload) = true
writes (update id payload) = true

abbrev pub roles_write : List String
roles_write = "admin" ∷ "operator" ∷ []

unfoldable pub serve :
    (String → String) → (List Deployment → List Deployment) → ℕ → Request → Table → Reply × Table
serve encrypt order t (list limit offset status) table =
    (list_deployments order t limit offset status table, table)
serve encrypt order t (get id) table = (reply_found (get_deployment t id table), table)
serve encrypt order t (create id payload) table = create_deployment encrypt t id payload table
serve encrypt order t (update id payload) table = update_deployment encrypt t id payload table
serve encrypt order t (start id) table = acknowledge (set_status t id "starting" table)
serve encrypt order t (stop id) table = acknowledge (set_status t id "stopped" table)
serve encrypt order t (delete id) table = delete_deployment t id table

abbrev pub serve_access :
    (String → String)
    → (List Deployment → List Deployment)
    → Access
    → Request
    → Table
    → Reply × Table
serve_access encrypt order unauthorized request table = (http_error 401, table)
serve_access encrypt order forbidden request table = (http_error 403, table)
serve_access encrypt order (granted user) request table =
    serve encrypt order user.tenant_id request table

unfoldable pub handle :
    (String → String)
    → (List Deployment → List Deployment)
    → Access
    → Request
    → Table
    → Reply × Table
handle encrypt order access request table =
    serve_access encrypt order (if writes request then require_role roles_write access else access)
      request table
