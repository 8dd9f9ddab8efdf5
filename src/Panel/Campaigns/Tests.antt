-- ===== src/Panel/Campaigns/Tests.antt =====
-- A campaign with four calls, one of which a caller ended before there was a disposition.
use aipanel.Base.{
  List, ◌-◌, ◌*◌, ◌≡◌, refl, String, [], ◌∷◌, Option, none, some, string_Key, nat_Key,
}
use aipanel.Base.Dict
use aipanel.Panel.Deployments.{Deployment}
use aipanel.Panel.Campaigns.{
  Call, Campaign, CampaignMetrics, Tables, is_counted, counted, metrics, metrics_of, get_campaign,
  add_to_group, group_by_dispo, read_groups,
}
use aipanel.Panel.Campaigns.Metrics.{Counts, metrics-Counts}
use aipanel.Panel.Campaigns.Found.{Finds, IsFound}

abbrev campaign : Campaign
campaign = record {
  tenant_id = 1;
  name = "spring";
  description = "";
  methodology = "spin";
  objective = "";
  success_dispos = "QUAL" ∷ "XFER" ∷ [];
  persona_template = [];
  script_template = [];
  kb_collection_id = none;
  few_shot_pool = [];
  status = "active";
}

abbrev deployment : Deployment
deployment = record {
  tenant_id = 1;
  agent_id = 2;
  vicidial_server_id = 3;
  vici_user = "u";
  vici_pass_encrypted = "p";
  phone_login = "l";
  phone_pass_encrypted = "q";
  campaign_id = "C";
  aipanel_campaign_id = none;
  allowed_transfer_ingroups = [];
  dispo_mapping = [];
  status = "running";
}

abbrev ended : Option String → Call
ended dispo = record {
  deployment_id = 7;
  campaign_id = some 5;
  started_at = 0;
  duration_sec = some 60;
  dispo_code = dispo;
}

abbrev tables : Tables
tables = record {
  campaigns = (5, campaign) ∷ [];
  deployments = (7, deployment) ∷ [];
  calls = ended (some "QUAL") ∷ ended none ∷ ended (some "QUAL") ∷ ended (some "UNKNOWN") ∷ [];
}

metrics-Counts_example :
    let since = 100 - 30 * 86400 in
    let base = counted (is_counted 1 5 since tables.deployments) tables.calls in
    (m : CampaignMetrics) × (metrics 100 1 5 30 tables ≡ some m)
    × Counts campaign.success_dispos base tables.calls m
    × Finds (IsFound 1 5 since tables.deployments) base tables.calls
unfolding get_campaign Dict.get
metrics-Counts_example = metrics-Counts 100 1 5 30 tables campaign refl

-- One call of the tenant and two of another, both with QUAL: two successes of one call. One without a
-- disposition and one with UNKNOWN have one key, and one of them is not counted.
abbrev foreign : Option String → Call
foreign dispo = record (ended dispo) { deployment_id = 8; campaign_id = none }

abbrev mixed : List Call
mixed = ended none ∷ foreign (some "QUAL") ∷ foreign (some "QUAL") ∷ foreign (some "UNKNOWN") ∷ []

two_of_one : (metrics_of campaign.success_dispos (ended none ∷ []) mixed).successful_calls ≡ 2
unfolding group_by_dispo add_to_group read_groups Dict.put
two_of_one = refl

lost_one :
    (metrics_of campaign.success_dispos (ended none ∷ []) mixed).by_dispo
    ≡ ("UNKNOWN", 1) ∷ ("QUAL", 2) ∷ []
unfolding group_by_dispo add_to_group read_groups Dict.put
lost_one = refl
