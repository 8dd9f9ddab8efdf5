-- ===== src/Vici/Adapter.antt =====
-- session-mgr/src/aipanel_vici/adapters/base.py and adapters/v2_14.py: the requests that the session
-- worker sends, the test for an expired session, and `send` of http_session.py.
pub mod Parse
mod Tests
use aipanel.Base.{
  ℕ, ◌≡◌, String, Text, codes, Bool, true, false, ◌||◌, List, [], ◌∷◌, ◌++◌, Option, none, some,
  is_empty, nat_eq, ◌==◌, string_Key, if◌then◌else◌,
}
use aipanel.Base.Dict.{Dict}
use aipanel.Base.Texts.{starts_with}
use aipanel.Vici.Model.{DeploymentRow, CapturedSession}

-- HttpRequestSpec, with the fields that an adapter of v2_14 fills: the query's parameters of a GET,
-- the form of a POST.
pub data Method : Type 0 where
  get_params post_form : Method

pub record HttpRequestSpec : Type 0 where
  pub method : Method
  pub path : String
  pub fields : Dict String String

abbrev db_query : String
db_query = "/agc/vdc_db_query.php"

unfoldable pub heartbeat_request : CapturedSession → DeploymentRow → HttpRequestSpec
heartbeat_request sess d = record {
  method = get_params;
  path = db_query;
  fields =
      ("function", "ConfExten_check")
      ∷ ("user", d.vici_user)
      ∷ ("pass", d.vici_pass)
      ∷ ("conf_exten", sess.conf_exten)
      ∷ ("session_name", sess.session_name)
      ∷ ("stage", "heartbeat")
      ∷ [];
}

unfoldable pub get_call_info_request : CapturedSession → DeploymentRow → HttpRequestSpec
get_call_info_request sess d = record {
  method = get_params;
  path = db_query;
  fields =
      ("function", "user_status")
      ∷ ("user", d.vici_user)
      ∷ ("pass", d.vici_pass)
      ∷ ("session_name", sess.session_name)
      ∷ ("format", "vars")
      ∷ [];
}

-- It does not read the session, which may be missing.
unfoldable pub get_lead_request : String → HttpRequestSpec
get_lead_request lead_id = record {
  method = get_params;
  path = "/vicidial/non_agent_api.php";
  fields =
      ("source", "aipanel")
      ∷ ("function", "update_lead")
      ∷ ("query", "Y")
      ∷ ("lead_id", lead_id)
      ∷ [];
}

-- The fields of a callback, where a time for it is given.
callback_fields : Option String → Dict String String
callback_fields none = []
callback_fields (some at) =
    if at == ""
    then []
    else ("callback", "Y") ∷ ("callback_dt", at) ∷ ("callback_type", "USERONLY") ∷ []

unfoldable pub dispose_request :
    CapturedSession → DeploymentRow → String → Option String → String → HttpRequestSpec
unfolding callback_fields
dispose_request sess d status callback_datetime notes = record {
  method = post_form;
  path = db_query;
  fields =
      ("function", "user_dispo_log")
      ∷ ("user", d.vici_user)
      ∷ ("pass", d.vici_pass)
      ∷ ("campaign", d.campaign_id)
      ∷ ("session_name", sess.session_name)
      ∷ ("status", status)
      ∷ ("comments", notes)
      ∷ callback_fields callback_datetime;
}

-- `summary` is cut to 1000 characters before: the argument is what is left of it.
unfoldable pub transfer_conference_request :
    CapturedSession → DeploymentRow → String → String → HttpRequestSpec
transfer_conference_request sess d ingroup_id summary = record {
  method = post_form;
  path = db_query;
  fields =
      ("function", "transfer_park_call_to_x")
      ∷ ("user", d.vici_user)
      ∷ ("pass", d.vici_pass)
      ∷ ("session_name", sess.session_name)
      ∷ ("conf_exten", sess.conf_exten)
      ∷ ("xfer_type", "IN_GROUP")
      ∷ ("ingroup", ingroup_id)
      ∷ ("comments", summary)
      ∷ ("leave_3way", "0")
      ∷ [];
}

unfoldable pub pause_request : CapturedSession → DeploymentRow → String → HttpRequestSpec
pause_request sess d pause_code = record {
  method = post_form;
  path = db_query;
  fields =
      ("function", "pause_session_log")
      ∷ ("user", d.vici_user)
      ∷ ("pass", d.vici_pass)
      ∷ ("campaign", d.campaign_id)
      ∷ ("session_name", sess.session_name)
      ∷ ("stage", "PAUSED")
      ∷ ("pause_code", pause_code)
      ∷ [];
}

unfoldable pub resume_request : CapturedSession → DeploymentRow → HttpRequestSpec
resume_request sess d = record {
  method = post_form;
  path = db_query;
  fields =
      ("function", "pause_session_log")
      ∷ ("user", d.vici_user)
      ∷ ("pass", d.vici_pass)
      ∷ ("campaign", d.campaign_id)
      ∷ ("session_name", sess.session_name)
      ∷ ("stage", "READY")
      ∷ [];
}

unfoldable pub hangup_request : CapturedSession → DeploymentRow → HttpRequestSpec
hangup_request sess d = record {
  method = post_form;
  path = db_query;
  fields =
      ("function", "ra_call_control")
      ∷ ("user", d.vici_user)
      ∷ ("pass", d.vici_pass)
      ∷ ("session_name", sess.session_name)
      ∷ ("conf_exten", sess.conf_exten)
      ∷ ("call_action", "HANGUP_CUSTOMER")
      ∷ [];
}

unfoldable pub logout_request : CapturedSession → DeploymentRow → HttpRequestSpec
logout_request sess d = record {
  method = post_form;
  path = "/agc/vicidial.php";
  fields =
      ("DB", "0")
      ∷ ("VD_login", d.vici_user)
      ∷ ("VD_pass", d.vici_pass)
      ∷ ("logout", "LOGOUT")
      ∷ ("session_name", sess.session_name)
      ∷ [];
}

unfoldable pub manual_dial_request : CapturedSession → DeploymentRow → String → HttpRequestSpec
manual_dial_request sess d phone_number = record {
  method = post_form;
  path = db_query;
  fields =
      ("function", "ext_manual_dial")
      ∷ ("user", d.vici_user)
      ∷ ("pass", d.vici_pass)
      ∷ ("session_name", sess.session_name)
      ∷ ("phone_number", phone_number)
      ∷ ("phone_code", "1")
      ∷ ("campaign", d.campaign_id)
      ∷ ("search", "NO")
      ∷ ("preview", "NO")
      ∷ ("focus", "YES")
      ∷ [];
}

-- Python's `m in body`.
abbrev is_in : Text → Text → Bool
is_in m [] = is_empty m
is_in m (c ∷ body) = starts_with m (c ∷ body) || is_in m body

abbrev logout_markers : List Text
logout_markers =
    codes "NOT LOGGED-IN"
    ∷ codes "logout_session"
    ∷ codes "USER LOGGED OUT"
    ∷ codes "session_expired"
    ∷ []

abbrev any_in : List Text → Text → Bool
any_in [] body = false
any_in (m ∷ ms) body = is_in m body || any_in ms body

unfoldable pub is_response_session_expired : Text → ℕ → Bool
is_response_session_expired body status_code =
    if nat_eq status_code 401 || nat_eq status_code 403
    then true
    else if is_empty body
    then true
    else any_in logout_markers body

-- What httpx makes of a request.
pub data HttpResult : Type 0 where
  response : ℕ → Text → HttpResult
  timeout http_error raises : HttpResult

-- `ViciHttp.send`: none is an exception that is no HTTPError, which it lets through.
unfoldable pub send : HttpResult → Option (ℕ × Text)
send (response status_code body) = some (status_code, body)
send timeout = some (599, [])
send http_error = some (0, [])
send raises = none
