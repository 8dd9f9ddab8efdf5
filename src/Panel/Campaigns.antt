-- ===== src/Panel/Campaigns.antt =====
-- panel/backend/src/aipanel/services/campaigns_service.py: the campaigns of all tenants in one table, and what is counted
-- of their calls. Times are seconds; the groups of a query come in the order of their first calls.
mod Joined
mod Found
pub mod Metrics
mod Tests
use aipanel.Base.{
  ℕ, ◌+◌, ◌-◌, ◌*◌, ◌≡◌, String, Bool, true, false, not, ◌&&◌, ◌||◌, List, [], ◌∷◌, ◌++◌, Option,
  none, some, length, take, drop, leb, nat_eq, if◌then◌else◌, ◌==◌, string_Key, nat_Key,
}
use aipanel.Base.Dict
use aipanel.Base.Dict.{Dict}
use aipanel.Agent.Session.Config.{Value, Object}
use aipanel.Panel.Deployments.{Deployment, or_old}
use aipanel.Panel.Mining.{Pair, sort}

pub record Campaign : Type 0 where
  pub tenant_id : ℕ
  pub name : String
  pub description : String
  pub methodology : String
  pub objective : String
  pub success_dispos : List String
  pub persona_template : Object
  pub script_template : Object
  pub kb_collection_id : Option ℕ
  pub few_shot_pool : List Value
  pub status : String

pub record CampaignCreate : Type 0 where
  pub name : String
  pub description : String
  pub methodology : String
  pub objective : String
  pub success_dispos : List String
  pub persona_template : Object
  pub script_template : Object
  pub kb_collection_id : Option ℕ

-- A field that is not set, or is null, is none.
pub record CampaignUpdate : Type 0 where
  pub name : Option String
  pub description : Option String
  pub methodology : Option String
  pub objective : Option String
  pub success_dispos : Option (List String)
  pub persona_template : Option Object
  pub script_template : Option Object
  pub kb_collection_id : Option ℕ
  pub status : Option String

pub record Call : Type 0 where
  pub deployment_id : ℕ
  pub campaign_id : Option ℕ
  pub started_at : ℕ
  pub duration_sec : Option ℕ
  pub dispo_code : Option String

pub record Tables : Type 0 where
  pub campaigns : Dict ℕ Campaign
  pub deployments : Dict ℕ Deployment
  pub calls : List Call

-- `get_campaign`, with none for 404.
abbrev own_campaign : ℕ → Option Campaign → Option Campaign
own_campaign tenant_id none = none
own_campaign tenant_id (some c) = if nat_eq c.tenant_id tenant_id then some c else none

pub get_campaign : ℕ → ℕ → Tables → Option Campaign
get_campaign tenant_id campaign_id t = own_campaign tenant_id (Dict.get campaign_id t.campaigns)

-- `list_campaigns`; `order` is that of the database, the last updated first.
abbrev is_wanted : ℕ → Option String → Campaign → Bool
is_wanted tenant_id none c = nat_eq c.tenant_id tenant_id
is_wanted tenant_id (some status) c =
    nat_eq c.tenant_id tenant_id && (status == "" || c.status == status)

abbrev select_campaigns : ℕ → Option String → Dict ℕ Campaign → List Campaign
select_campaigns tenant_id status [] = []
select_campaigns tenant_id status ((id, c) ∷ table) =
    if is_wanted tenant_id status c
    then c ∷ select_campaigns tenant_id status table
    else select_campaigns tenant_id status table

unfoldable list_campaigns :
    (List Campaign → List Campaign) → ℕ → ℕ → ℕ → Option String → Tables → List Campaign × ℕ
list_campaigns order tenant_id limit offset status t =
    let rows = select_campaigns tenant_id status t.campaigns in
    (take limit (drop offset (order rows)), length rows)

-- `create_campaign`, under a new id; one that is taken is an error of the database.
abbrev new_campaign : ℕ → CampaignCreate → Campaign
new_campaign tenant_id payload = record {
  tenant_id = tenant_id;
  name = payload.name;
  description = payload.description;
  methodology = payload.methodology;
  objective = payload.objective;
  success_dispos = payload.success_dispos;
  persona_template = payload.persona_template;
  script_template = payload.script_template;
  kb_collection_id = payload.kb_collection_id;
  few_shot_pool = [];
  status = "draft";
}

abbrev write_campaign : ℕ → Campaign → Tables → Tables
write_campaign id c t = record t { campaigns = Dict.put id c t.campaigns }

abbrev add_campaign : ℕ → Campaign → Option Campaign → Tables → Option Campaign × Tables
add_campaign id c (some taken) t = (none, t)
add_campaign id c none t = (some c, write_campaign id c t)

unfoldable create_campaign : ℕ → ℕ → CampaignCreate → Tables → Option Campaign × Tables
create_campaign tenant_id id payload t =
    add_campaign id (new_campaign tenant_id payload) (Dict.get id t.campaigns) t

-- `update_campaign` and `archive_campaign`.
abbrev or_set : Option ℕ → Option ℕ → Option ℕ
or_set old none = old
or_set old (some new) = some new

abbrev with_update : CampaignUpdate → Campaign → Campaign
with_update u c = record c {
  name = or_old c.name u.name;
  description = or_old c.description u.description;
  methodology = or_old c.methodology u.methodology;
  objective = or_old c.objective u.objective;
  success_dispos = or_old c.success_dispos u.success_dispos;
  persona_template = or_old c.persona_template u.persona_template;
  script_template = or_old c.script_template u.script_template;
  kb_collection_id = or_set c.kb_collection_id u.kb_collection_id;
  status = or_old c.status u.status;
}

abbrev change_campaign :
    ℕ → (Campaign → Campaign) → Option Campaign → Tables → Option Campaign × Tables
change_campaign id change none t = (none, t)
change_campaign id change (some c) t = (some (change c), write_campaign id (change c) t)

unfoldable update_campaign : ℕ → ℕ → CampaignUpdate → Tables → Option Campaign × Tables
update_campaign tenant_id id payload t =
    change_campaign id (with_update payload) (get_campaign tenant_id id t) t

unfoldable archive_campaign : ℕ → ℕ → Tables → Option Campaign × Tables
archive_campaign tenant_id id t =
    change_campaign id (λ c. record c { status = "archived" }) (get_campaign tenant_id id t) t

-- The query of `metrics`: a call of a deployment of the tenant, in the period, of the campaign or of a
-- deployment for the campaign.
abbrev pub is_id : ℕ → Option ℕ → Bool
is_id id none = false
is_id id (some other) = nat_eq other id

abbrev pub of_deployment : ℕ → ℕ → Call → Option Deployment → Bool
of_deployment tenant_id campaign_id call none = false
of_deployment tenant_id campaign_id call (some d) =
    nat_eq d.tenant_id tenant_id
    && (is_id campaign_id call.campaign_id || is_id campaign_id d.aipanel_campaign_id)

pub is_counted : ℕ → ℕ → ℕ → Dict ℕ Deployment → Call → Bool
is_counted tenant_id campaign_id since deployments call =
    leb since call.started_at
    && of_deployment tenant_id campaign_id call (Dict.get call.deployment_id deployments)

abbrev pub counted : (Call → Bool) → List Call → List Call
counted test [] = []
counted test (call ∷ calls) = if test call then call ∷ counted test calls else counted test calls

-- The other two queries of `metrics` select columns of `calls` from the subquery, which joins every row
-- of the subquery with every row of the table `calls`, of all tenants; the rows that they see are those of
-- the table.
abbrev pub cross_join : List Call → List Call → List Call
cross_join [] calls = []
cross_join (row ∷ base) calls = calls ++ cross_join base calls

-- `GROUP BY dispo_code`.
abbrev same_dispo : Option String → Option String → Bool
same_dispo none none = true
same_dispo none (some b) = false
same_dispo (some a) none = false
same_dispo (some a) (some b) = a == b

abbrev pub Groups : Type 0
Groups = List (Option String × ℕ)

pub add_to_group : Option String → Groups → Groups
add_to_group d [] = (d, 1) ∷ []
add_to_group d ((e, n) ∷ groups) =
    if same_dispo e d then (e, n + 1) ∷ groups else (e, n) ∷ add_to_group d groups

pub group_by_dispo : List Call → Groups → Groups
group_by_dispo [] groups = groups
group_by_dispo (call ∷ calls) groups = group_by_dispo calls (add_to_group call.dispo_code groups)

-- `d or "UNKNOWN"`, and `d in success_dispos`.
abbrev pub dispo_key : Option String → String
dispo_key none = "UNKNOWN"
dispo_key (some d) = if d == "" then "UNKNOWN" else d

abbrev one_of : String → List String → Bool
one_of d [] = false
one_of d (e ∷ dispos) = e == d || one_of d dispos

abbrev pub is_success : List String → Option String → Bool
is_success dispos none = false
is_success dispos (some d) = one_of d dispos

-- The loop over the groups.
abbrev successes : List String → Option String → ℕ → ℕ
successes dispos d n = if is_success dispos d then n else 0

pub read_groups : List String → Groups → Dict String ℕ → ℕ → Dict String ℕ × ℕ
read_groups dispos [] by_dispo successful = (by_dispo, successful)
read_groups dispos ((d, n) ∷ groups) by_dispo successful =
    read_groups dispos groups (Dict.put (dispo_key d) n by_dispo)
      (successful + successes dispos d n)

abbrev add_duration : Option ℕ → ℕ × ℕ → ℕ × ℕ
add_duration none (sum, n) = (sum, n)
add_duration (some d) (sum, n) = (sum + d, n + 1)

-- `AVG` leaves out the calls without a duration.
abbrev durations : List Call → ℕ × ℕ
durations [] = (0, 0)
durations (call ∷ calls) = add_duration call.duration_sec (durations calls)

-- A rate or a mean is a fraction; that of nothing is 0.
abbrev fraction : ℕ → ℕ → ℕ × ℕ
fraction a b = if nat_eq b 0 then (0, 1) else (a, b)

pub record CampaignMetrics : Type 0 where
  pub total_calls : ℕ
  pub successful_calls : ℕ
  pub conversion_rate : ℕ × ℕ
  pub by_dispo : Dict String ℕ
  pub avg_duration_sec : ℕ × ℕ

abbrev pub metrics_of : List String → List Call → List Call → CampaignMetrics
metrics_of dispos base calls =
    let joined = cross_join base calls in
    let read = read_groups dispos (group_by_dispo joined []) [] 0 in
    let lasted = durations joined in
    record {
      total_calls = length base;
      successful_calls = read.1;
      conversion_rate = fraction read.1 (length base);
      by_dispo = read.0;
      avg_duration_sec = fraction lasted.0 lasted.1;
    }

abbrev pub metrics_if : List Call → List Call → Option Campaign → Option CampaignMetrics
metrics_if base calls none = none
metrics_if base calls (some c) = some (metrics_of c.success_dispos base calls)

pub metrics : ℕ → ℕ → ℕ → ℕ → Tables → Option CampaignMetrics
metrics now tenant_id campaign_id period_days t =
    metrics_if
      (counted (is_counted tenant_id campaign_id (now - period_days * 86400) t.deployments) t.calls)
      t.calls (get_campaign tenant_id campaign_id t)

-- `parse_few_shot_pool`: `parse` is pydantic's, with none for what it refuses.
unfoldable parse_few_shot_pool : (Value → Option Pair) → List Value → List Pair
parse_few_shot_pool parse [] = []
parse_few_shot_pool parse (item ∷ raw) =
    let rest = parse_few_shot_pool parse raw in
    elim (parse item) [ none ↦ rest | some example ↦ example ∷ rest ]

abbrev pool_of : (Value → Option Pair) → ℕ → Option Campaign → Option (List Pair)
pool_of parse limit none = none
pool_of parse limit (some c) = some (take limit (sort (parse_few_shot_pool parse c.few_shot_pool)))

unfoldable get_few_shot_pool : (Value → Option Pair) → ℕ → ℕ → ℕ → Tables → Option (List Pair)
get_few_shot_pool parse tenant_id campaign_id limit t =
    pool_of parse limit (get_campaign tenant_id campaign_id t)
