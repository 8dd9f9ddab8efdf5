-- ===== src/Sip/Accounts/Tests.antt =====
-- Accounts in concrete situations.
use aipanel.Base.{ℕ, ◌≡◌, true, [], ◌∷◌, some, nat_Key, String, string_Key, Option}
use aipanel.Base.Dict
use aipanel.Sip.Accounts.{SipAccount, PjAccount, Manager, DbRow, update_account, act}
use aipanel.Sip.Accounts.Channel.{text_field, Json, object_value, Watcher}
use aipanel.Sip.Accounts.Messages.{has, has_after, has-act}

abbrev account : SipAccount
account = record {
  deployment_id = 7;
  phone_login = "8001";
  phone_pass = "secret";
  asterisk_host = "vici";
  asterisk_port = 5060;
}

abbrev registered : PjAccount
registered = record { model = account; retry_idx = 0 }

abbrev manager : Manager
manager = record {
  accounts = (7, 0) ∷ [];
  objects = (0, registered) ∷ [];
  made = 1;
  timers = [];
  registrations = [];
  shut = [];
  successes = 1;
  failures = 0;
}

abbrev row : DbRow
row = record {
  deployment_id = 7;
  status = "running";
  phone_login = "8002";
  phone_pass_encrypted = "x";
  asterisk_host = "vici";
  asterisk_port = 5060;
}

has-act_example :
    has 7 (act some (λ _. true) (some (row ∷ [])) update_account 7 manager)
    ≡ has_after some (λ _. true) (some (row ∷ [])) update_account 7 7 (has 7 manager)
has-act_example = has-act some (λ _. true) (some (row ∷ [])) update_account 7 manager 7

abbrev uuid : String → Option ℕ
uuid text = some 7

abbrev remove_seven : Json
remove_seven =
    object_value (("action", text_field "remove") ∷ ("deployment_id", text_field "7") ∷ [])

abbrev watcher : Watcher
watcher = record { manager = manager; alive = true; backoff = 4; waits = [] }
