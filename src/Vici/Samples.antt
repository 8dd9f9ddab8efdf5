-- ===== src/Vici/Samples.antt =====
-- A deployment and a session of it, for the tests.
use aipanel.Base.{ℕ, [], ◌∷◌}
use aipanel.Vici.Model.{DeploymentRow, CapturedSession}

abbrev pub row_of : ℕ → DeploymentRow
row_of n = record {
  deployment_id = n;
  tenant_id = 1;
  vici_server_id = 2;
  web_url = "https://vici.example.com";
  asterisk_host = "vici";
  vici_user = "agent01";
  vici_pass = "secret";
  phone_login = "8001";
  phone_pass = "secret";
  campaign_id = "SALES";
  allowed_transfer_ingroups = [];
}

abbrev pub session : CapturedSession
session = record {
  cookies = ("PHPSESSID", "abc") ∷ [];
  conf_exten = "8600099";
  session_id = "T";
  session_name = "n";
  user_agent = "ua";
}
