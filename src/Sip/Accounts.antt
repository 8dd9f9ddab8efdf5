-- ===== src/Sip/Accounts.antt =====
-- sip/src/aipanel_sip/account_manager.py: the accounts that are registered, their retries, and the
-- messages that change them. A PJSIP account is an object with a number: `accounts` says which
-- deployment has which, and an object outlives its place there. `timers` records the retries that are
-- scheduled, with their delay; `registrations`, `shut`, `successes` and `failures` what was asked of
-- PJSIP and the calls of the two callbacks, the oldest first. Delays are seconds.
pub mod Retries
pub mod Messages
pub mod Channel
mod Tests
use aipanel.Base.{
  ℕ, zero, suc, ◌+◌, ◌-◌, ◌*◌, ◌≡◌, min, String, Bool, true, false, ◌&&◌, ◌||◌, List, [], ◌∷◌, ◌++◌,
  Option, none, some, map, length, ltb, nat_eq, nat_Key, ◌==◌, string_Key, if◌then◌else◌,
}
use aipanel.Base.Dict
use aipanel.Base.Dict.{Dict}
use aipanel.Base.Texts.{get_elem?}

pub record SipAccount : Type 0 where
  pub deployment_id : ℕ
  pub phone_login : String
  pub phone_pass : String
  pub asterisk_host : String
  pub asterisk_port : ℕ

pub record PjAccount : Type 0 where
  pub model : SipAccount
  pub retry_idx : ℕ

pub record Manager : Type 0 where
  pub accounts : Dict ℕ ℕ
  pub objects : Dict ℕ PjAccount
  pub made : ℕ
  pub timers : List (ℕ × ℕ)
  pub registrations : List (ℕ × Bool)
  pub shut : List ℕ
  pub successes : ℕ
  pub failures : ℕ

-- `_schedule_retry`. Without any delay in the settings the code raises IndexError, and nothing is
-- scheduled.
pub schedule_retry : List ℕ → ℕ → PjAccount → Manager → Manager
schedule_retry delays object acc m =
    elim (get_elem? delays (min acc.retry_idx (length delays - 1))) [
      | none ↦ m
      | some delay ↦ record m {
        timers = m.timers ++ (object, delay) ∷ [];
        objects = Dict.put object (record acc { retry_idx = acc.retry_idx + 1 }) m.objects;
      }
    ]

-- What `getInfo` gives to `onRegState`: an error, or whether the registration is active.
pub data RegInfo : Type 0 where
  no_info active inactive : RegInfo

pub on_reg_state : List ℕ → RegInfo → ℕ → PjAccount → Manager → Manager
on_reg_state delays no_info object acc m = m
on_reg_state delays active object acc m = record m {
  objects = Dict.put object (record acc { retry_idx = 0 }) m.objects;
  successes = m.successes + 1;
}
on_reg_state delays inactive object acc m =
    schedule_retry delays object acc (record m { failures = m.failures + 1 })

-- `_do_retry`, with whether PJSIP takes the request.
unfoldable do_retry : List ℕ → Bool → ℕ → PjAccount → Manager → Manager
do_retry delays takes object acc m =
    if takes
    then record m { registrations = m.registrations ++ (object, true) ∷ [] }
    else schedule_retry delays object acc m

unfoldable unregister_all : Manager → Manager
unregister_all m = record m {
  registrations = m.registrations ++ map (λ entry. (entry.1, false)) m.accounts;
}

-- A row of the two tables that the query joins.
pub record DbRow : Type 0 where
  pub deployment_id : ℕ
  pub status : String
  pub phone_login : String
  pub phone_pass_encrypted : String
  pub asterisk_host : String
  pub asterisk_port : ℕ

-- SQL_LOAD_ACCOUNTS and SQL_LOAD_ONE: which rows they select.
abbrev pub selects : Option ℕ → DbRow → Bool
selects none row = row.status == "starting" || row.status == "running"
selects (some did) row =
    (row.status == "starting" || row.status == "running") && nat_eq row.deployment_id did

-- What a message asks for, by its "action".
pub data Action : Type 0 where
  add_account update_account remove_account unknown_action : Action

-- `decrypt` is Fernet's, with none for its errors; `creates` says which accounts PJSIP can create.
module _ (decrypt : String → Option String) (creates : SipAccount → Bool) where
  pub model_of : DbRow → Option SipAccount
  model_of row = elim (decrypt row.phone_pass_encrypted) [
    | none ↦ none
    | some phone_pass ↦ some (record {
      deployment_id = row.deployment_id;
      phone_login = row.phone_login;
      phone_pass = phone_pass;
      asterisk_host = row.asterisk_host;
      asterisk_port = row.asterisk_port;
    })
  ]

  pub models_of : Option ℕ → List DbRow → List SipAccount
  models_of only [] = []
  models_of only (row ∷ rows) =
      let rest = models_of only rows in
      if selects only row
      then elim (model_of row) [ none ↦ rest | some model ↦ model ∷ rest ]
      else rest

  -- `_fetch_models`, where none is an error of the database.
  pub fetch_models : Option ℕ → Option (List DbRow) → List SipAccount
  fetch_models only none = []
  fetch_models only (some rows) = models_of only rows

  -- `_create_account`.
  pub create_new : SipAccount → Manager → Manager
  create_new model m =
      if creates model
      then record m {
        accounts = Dict.put model.deployment_id m.made m.accounts;
        objects = Dict.put m.made (record { model = model; retry_idx = 0 }) m.objects;
        made = m.made + 1;
      }
      else m

  pub create_account : SipAccount → Manager → Manager
  create_account model m = elim (Dict.get model.deployment_id m.accounts) [
    | none ↦ create_new model m
    | some object ↦ m
  ]

  pub create_accounts : List SipAccount → Manager → Manager
  create_accounts [] m = m
  create_accounts (model ∷ models) m = create_accounts models (create_account model m)

  -- `_destroy_account`; the errors of PJSIP are only logged.
  pub destroy_account : ℕ → Manager → Manager
  destroy_account did m = elim (Dict.get did m.accounts) [
    | none ↦ m
    | some object ↦ record m { accounts = Dict.remove did m.accounts; shut = m.shut ++ object ∷ [] }
  ]

  -- `_handle_pubsub_message`, on a message that could be read.
  pub act : Option (List DbRow) → Action → ℕ → Manager → Manager
  act db remove_account did m = destroy_account did m
  act db add_account did m = create_accounts (fetch_models (some did) db) m
  act db update_account did m = create_accounts (fetch_models (some did) db) (destroy_account did m)
  act db unknown_action did m = m
