-- ===== src/Vici/Model.antt =====
-- session-mgr/src/aipanel_vici/models.py. A UUID is a number; a time is a number of milliseconds.
use aipanel.Base.{ℕ, Text, String, List, [], Option, none}
use aipanel.Base.Dict.{Dict}

pub data SessionStatus : Type 0 where
  logging_in ready on_call paused error logged_out : SessionStatus

pub record DeploymentRow : Type 0 where
  pub deployment_id : ℕ
  pub tenant_id : ℕ
  pub vici_server_id : ℕ
  pub web_url : String
  pub asterisk_host : String
  pub vici_user : String
  pub vici_pass : String
  pub phone_login : String
  pub phone_pass : String
  pub campaign_id : String
  pub allowed_transfer_ingroups : List String

pub record CapturedSession : Type 0 where
  pub cookies : Dict String String
  pub conf_exten : String
  pub session_id : String
  pub session_name : String
  pub user_agent : String

pub record SessionState : Type 0 where
  pub deployment_id : ℕ
  pub tenant_id : ℕ
  pub vici_user : String
  pub phone_login : String
  pub campaign : String
  pub status : SessionStatus
  pub cookies : Dict String String
  pub conf_exten : String
  pub session_id : String
  pub session_name : String
  pub user_agent : String
  pub last_heartbeat_at : Option ℕ
  pub last_call_id : Option Text
  pub login_attempts : ℕ
  pub heartbeat_failures : ℕ
  pub last_error : String
  pub created_at : ℕ

-- The state that `SessionWorker.__init__` builds from a deployment, at a time.
abbrev pub new_state : DeploymentRow → ℕ → SessionState
new_state d now = record {
  deployment_id = d.deployment_id;
  tenant_id = d.tenant_id;
  vici_user = d.vici_user;
  phone_login = d.phone_login;
  campaign = d.campaign_id;
  status = logging_in;
  cookies = [];
  conf_exten = "";
  session_id = "";
  session_name = "";
  user_agent = "";
  last_heartbeat_at = none;
  last_call_id = none;
  login_attempts = 0;
  heartbeat_failures = 0;
  last_error = "";
  created_at = now;
}

-- CallInfo and LeadData, without the `custom` fields, which no adapter fills.
pub record CallInfo : Type 0 where
  pub lead_id : Option Text
  pub uniqueid : Option Text
  pub campaign_id : Option Text
  pub list_id : Option Text
  pub phone_number : Option Text

pub record LeadData : Type 0 where
  pub lead_id : Text
  pub phone_number : Text
  pub first_name : Text
  pub last_name : Text
  pub address : Text
  pub city : Text
  pub state : Text
  pub postal_code : Text
  pub email : Text
