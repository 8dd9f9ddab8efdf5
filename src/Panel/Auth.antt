-- ===== src/Panel/Auth.antt =====
-- panel/backend/src/aipanel/auth/ (jwt.py, denylist.py, deps.py, permissions.py) and the routes of api/v1/auth.py:
-- who is asking. PyJWT is an interface; a UUID is a number, and a claim that is missing or malformed is
-- none. Times are seconds.
pub mod Revoked
use aipanel.Base.{
  ℕ, ◌+◌, ◌-◌, ◌≡◌, max, String, Bool, true, false, not, ◌&&◌, ◌||◌, List, [], ◌∷◌, Option, none,
  some, ltb, nat_eq, if◌then◌else◌, ◌==◌, string_Key, nat_Key,
}
use aipanel.Base.Dict
use aipanel.Base.Dict.{Dict}

pub record Claims : Type 0 where
  pub sub : Option ℕ
  pub tenant_id : Option ℕ
  pub role : Option String
  pub token_type : Option String
  pub iat : Option ℕ
  pub exp : Option ℕ
  pub jti : Option String

-- PyJWT with the secret of the panel: a token that it has made is read back until it expires.
pub record Jwt (Token : Type 0) : Type 0 where
  pub encode : Claims → Token
  pub decode : ℕ → Token → Option Claims
  pub reads_back :
      (now exp : ℕ) (claims : Claims)
      → claims.exp ≡ some exp
      → decode now (encode claims) ≡ (if ltb now exp then some claims else none)

pub record TokenPayload : Type 0 where
  pub user_id : ℕ
  pub tenant_id : ℕ
  pub role : String
  pub issued_at : ℕ
  pub expires_at : ℕ
  pub jti : String

pub record User : Type 0 where
  pub id : ℕ
  pub tenant_id : ℕ
  pub role : String
  pub email : String
  pub password_hash : String

-- The users, and the denylist in Redis: when each entry runs out.
pub record Panel : Type 0 where
  pub users : Dict ℕ User
  pub denylist : Dict String ℕ
  pub redis_up : Bool

-- `_decode` and the rest of `verify`.
abbrev or_empty_jti : Option String → String
or_empty_jti none = ""
or_empty_jti (some jti) = jti

abbrev pub is_type : String → Option String → Bool
is_type expected none = false
is_type expected (some t) = t == expected

unfoldable pub payload_of :
    Option ℕ → Option ℕ → Option String → Option ℕ → Option ℕ → Option String → Option TokenPayload
payload_of (some sub) (some tenant_id) (some role) (some iat) (some exp) jti = some (record {
  user_id = sub;
  tenant_id = tenant_id;
  role = role;
  issued_at = iat;
  expires_at = exp;
  jti = or_empty_jti jti;
})
payload_of _ _ _ _ _ jti = none

abbrev pub check_claims : String → Option Claims → Option TokenPayload
check_claims expected none = none
check_claims expected (some c) =
    if is_type expected c.token_type
    then payload_of c.sub c.tenant_id c.role c.iat c.exp c.jti
    else none

-- `deny`.
unfoldable pub deny : String → ℕ → ℕ → Panel → Panel
deny jti expires_at now p =
    if jti == "" || not p.redis_up
    then p
    else record p { denylist = Dict.put jti (now + max 1 (expires_at - now)) p.denylist }

-- `is_denied`: False where Redis is down.
abbrev pub runs_out : ℕ → Option ℕ → Bool
runs_out now none = false
runs_out now (some until) = ltb now until

unfoldable pub is_denied : String → ℕ → Panel → Bool
is_denied jti now p =
    if jti == "" || not p.redis_up then false else runs_out now (Dict.get jti p.denylist)

-- What a route that asks for a user meets.
pub data Access : Type 0 where
  unauthorized forbidden : Access
  granted : User → Access

abbrev pub check_user : TokenPayload → Option User → Access
check_user payload none = unauthorized
check_user payload (some user) =
    if not (nat_eq user.tenant_id payload.tenant_id) || not (user.role == payload.role)
    then unauthorized
    else granted user

abbrev pub not_denied : ℕ → Panel → TokenPayload → Option TokenPayload
not_denied now p payload =
    if not (payload.jti == "") && is_denied payload.jti now p then none else some payload

-- `require_role`.
abbrev pub listed : String → List String → Bool
listed role [] = false
listed role (r ∷ roles) = r == role || listed role roles

unfoldable pub require_role : List String → Access → Access
require_role roles unauthorized = unauthorized
require_role roles forbidden = forbidden
require_role roles (granted user) = if listed user.role roles then granted user else forbidden

-- Every access token that `issue_access` makes, and every refresh token of `issue_refresh`; `jti` is the
-- random id.
abbrev pub claims_for : String → User → ℕ → ℕ → String → Claims
claims_for token_type user iat lifetime jti = record {
  sub = some user.id;
  tenant_id = some user.tenant_id;
  role = some user.role;
  token_type = some token_type;
  iat = some iat;
  exp = some (iat + lifetime);
  jti = some jti;
}

-- The pair of tokens, with the lifetimes and the ids.
pub record Fresh : Type 0 where
  pub access_lifetime : ℕ
  pub refresh_lifetime : ℕ
  pub access_jti : String
  pub refresh_jti : String

module _ {Token : Type 0} (jwt : Jwt Token) where
  unfoldable pub verify : String → ℕ → Token → Option TokenPayload
  verify expected now token = check_claims expected (jwt.decode now token)

  -- `_read_token`, with none for 401.
  abbrev pub not_revoked : ℕ → Panel → Option TokenPayload → Option TokenPayload
  not_revoked now p none = none
  not_revoked now p (some payload) = not_denied now p payload

  unfoldable pub read_token : ℕ → Panel → Option Token → Option TokenPayload
  read_token now p none = none
  read_token now p (some token) = not_revoked now p (verify "access" now token)

  abbrev pub find_user : Panel → Option TokenPayload → Access
  find_user p none = unauthorized
  find_user p (some payload) = check_user payload (Dict.get payload.user_id p.users)

  pub get_current_user : ℕ → Panel → Option Token → Access
  get_current_user now p token = find_user p (read_token now p token)

  unfoldable pub issue_access : User → ℕ → ℕ → String → Token
  issue_access user now lifetime jti = jwt.encode (claims_for "access" user now lifetime jti)

  pub issue_refresh : User → ℕ → ℕ → String → Token
  issue_refresh user now lifetime jti = jwt.encode (claims_for "refresh" user now lifetime jti)

  abbrev pub make_token_pair : Fresh → ℕ → User → Token × Token
  make_token_pair f now user = (
    issue_access user now f.access_lifetime f.access_jti,
    issue_refresh user now f.refresh_lifetime f.refresh_jti,
  )

  -- `login`, of the user with the email, if there is one; `matches` is Argon2's check.
  unfoldable pub login :
      (String → String → Bool) → Fresh → ℕ → Option User → String → Option (Token × Token)
  login matches f now none password = none
  login matches f now (some user) password =
      if not (user.password_hash == "") && matches password user.password_hash
      then some (make_token_pair f now user)
      else none

  -- `refresh`: the denylist is not asked, and the role is that of the user now.
  abbrev pub renew : Fresh → ℕ → TokenPayload → Option User → Option (Token × Token)
  renew f now payload none = none
  renew f now payload (some user) =
      if nat_eq user.tenant_id payload.tenant_id then some (make_token_pair f now user) else none

  abbrev pub refresh_with : Fresh → ℕ → Panel → Option TokenPayload → Option (Token × Token)
  refresh_with f now p none = none
  refresh_with f now p (some payload) = renew f now payload (Dict.get payload.user_id p.users)

  pub refresh : Fresh → ℕ → Panel → Token → Option (Token × Token)
  refresh f now p token = refresh_with f now p (verify "refresh" now token)

  -- `logout`, with none for 401.
  abbrev pub deny_payload : ℕ → Panel → Option TokenPayload → Option Panel
  deny_payload now p none = none
  deny_payload now p (some payload) =
      some (if payload.jti == "" then p else deny payload.jti payload.expires_at now p)

  unfoldable pub logout : ℕ → Panel → Option Token → Option Panel
  logout now p token = deny_payload now p (read_token now p token)
