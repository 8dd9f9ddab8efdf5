-- ===== src/Panel/Auth/Revoked.antt =====
-- The life of a token in panel/backend/src/aipanel/auth/ and api/v1/auth.py: what it opens, and for how long.
use aipanel.Base.{
  ℕ, ◌+◌, ◌-◌, ◌≡◌, refl, sym, ap, ◌∙◌, max, String, Bool, true, false, not, ◌&&◌, ◌||◌, Option,
  none, some, ltb, lt→ltb, nat_eq, if◌then◌else◌, if-true, if-false, either_way, ◌==◌, string_Key,
  nat_Key, eq_iff, arith, Bool-cases, inl, inr,
}
use aipanel.Base.Dict
use aipanel.Panel.Auth.{
  Claims, Jwt, TokenPayload, User, Panel, payload_of, is_type, check_claims, deny, is_denied,
  unauthorized, granted, check_user, not_denied, runs_out, claims_for, verify, not_revoked,
  read_token, find_user, get_current_user, issue_access, issue_refresh, Fresh, make_token_pair,
  refresh, refresh_with, renew, deny_payload, logout,
}

-- What is read of a token for a user.
abbrev payload_for : User → ℕ → ℕ → String → TokenPayload
payload_for user iat lifetime jti = record {
  user_id = user.id;
  tenant_id = user.tenant_id;
  role = user.role;
  issued_at = iat;
  expires_at = iat + lifetime;
  jti = jti;
}

-- An entry of the denylist outlives the token.
denied_until :
    (jti : String) (exp now later : ℕ) (p : Panel)
    → (jti == "") ≡ false
    → p.redis_up ≡ true
    → ltb later exp ≡ true
    → is_denied jti later (deny jti exp now p) ≡ true
unfolding deny is_denied
denied_until jti exp now later p named up valid =
    let until = now + max 1 (exp - now) in
    let noted = record p { denylist = Dict.put jti until p.denylist } in
    let goes : (jti == "" || not p.redis_up) ≡ false = ground (arith, named, up) in
    ap (is_denied jti later) (if-false (jti == "" || not p.redis_up) p noted goes)
    ∙ if-false (jti == "" || not p.redis_up) false (runs_out later (Dict.get jti noted.denylist))
        goes
    ∙ ap (runs_out later) (Dict.get-put_self jti until p.denylist)
    ∙ lt→ltb later until (ground (arith, valid))

-- Whatever there is after a logout.
or_panel : Panel → Option Panel → Panel
or_panel p none = p
or_panel p (some q) = q

some-injective : (p q : Panel) → some p ≡ some q → p ≡ q
unfolding or_panel
some-injective p q e = ap (or_panel p) e

other_type :
    (valid : Bool) (c : Claims) (expected : String)
    → is_type expected c.token_type ≡ false
    → check_claims expected (if valid then some c else none) ≡ none
other_type true c expected other = if-false (is_type expected c.token_type) _ _ other
other_type false c expected other = refl

deny-users : (jti : String) (exp now : ℕ) (p : Panel) → (deny jti exp now p).users ≡ p.users
unfolding deny
deny-users jti exp now p =
    either_way (λ (q : Panel). q.users ≡ p.users) (jti == "" || not p.redis_up) p
      (record p { denylist = Dict.put jti (now + max 1 (exp - now)) p.denylist }) refl refl

module _ {Token : Type 0} (jwt : Jwt Token) where
  verify-issue_access :
      (user : User) (iat lifetime now : ℕ) (jti : String)
      → verify jwt "access" now (issue_access jwt user iat lifetime jti)
        ≡ (if ltb now (iat + lifetime) then some (payload_for user iat lifetime jti) else none)
  unfolding verify issue_access payload_of
  verify-issue_access user iat lifetime now jti =
      ap (check_claims "access")
        (jwt.reads_back now (iat + lifetime) (claims_for "access" user iat lifetime jti) refl)
      ∙ ground arith

  check_user-same :
      (user : User) (iat lifetime : ℕ) (jti : String)
      → check_user (payload_for user iat lifetime jti) (some user) ≡ granted user
  check_user-same user iat lifetime jti =
      if-false (not (nat_eq user.tenant_id user.tenant_id) || not (user.role == user.role)) _ _
        (ground (arith, eq_iff user.role user.role))

  read_token-valid :
      (user : User) (iat lifetime now : ℕ) (jti : String) (p : Panel)
      → ltb now (iat + lifetime) ≡ true
      → read_token jwt now p (some (issue_access jwt user iat lifetime jti))
        ≡ not_denied now p (payload_for user iat lifetime jti)
  unfolding read_token
  read_token-valid user iat lifetime now jti p valid =
      ap (not_revoked jwt now p) (
        verify-issue_access user iat lifetime now jti
        ∙ if-true (ltb now (iat + lifetime)) _ _ valid)

  read_token-expired :
      (user : User) (iat lifetime now : ℕ) (jti : String) (p : Panel)
      → ltb now (iat + lifetime) ≡ false
      → read_token jwt now p (some (issue_access jwt user iat lifetime jti)) ≡ none
  unfolding read_token
  read_token-expired user iat lifetime now jti p expired = ap (not_revoked jwt now p) (
      verify-issue_access user iat lifetime now jti
      ∙ if-false (ltb now (iat + lifetime)) _ _ expired)

  -- The access token of a user that is as it was, before it expires, and whose id is not denied, is taken for
  -- that user.
  get_current_user-issue_access :
      (user : User) (iat lifetime now : ℕ) (jti : String) (p : Panel)
      → ltb now (iat + lifetime) ≡ true
      → Dict.get user.id p.users ≡ some user
      → is_denied jti now p ≡ false
      → get_current_user jwt now p (some (issue_access jwt user iat lifetime jti)) ≡ granted user
  unfolding get_current_user
  get_current_user-issue_access user iat lifetime now jti p valid there free =
      let payload = payload_for user iat lifetime jti in
      let allowed : (not (jti == "") && is_denied jti now p) ≡ false = ground (arith, free) in
      ap (find_user jwt p) (
        read_token-valid user iat lifetime now jti p valid
        ∙ if-false (not (jti == "") && is_denied jti now p) none (some payload) allowed)
      ∙ ap (check_user payload) there
      ∙ check_user-same user iat lifetime jti

  refused_expired :
      (user : User) (iat lifetime now : ℕ) (jti : String) (p : Panel)
      → ltb now (iat + lifetime) ≡ false
      → get_current_user jwt now p (some (issue_access jwt user iat lifetime jti)) ≡ unauthorized
  unfolding get_current_user
  refused_expired user iat lifetime now jti p expired =
      ap (find_user jwt p) (read_token-expired user iat lifetime now jti p expired)

  refused_denied :
      (user : User) (iat lifetime now : ℕ) (jti : String) (p : Panel)
      → ltb now (iat + lifetime) ≡ true
      → (not (jti == "") && is_denied jti now p) ≡ true
      → read_token jwt now p (some (issue_access jwt user iat lifetime jti)) ≡ none
  refused_denied user iat lifetime now jti p valid denied =
      read_token-valid user iat lifetime now jti p valid
      ∙ if-true (not (jti == "") && is_denied jti now p) none
          (some (payload_for user iat lifetime jti)) denied

  -- A logout that succeeds puts the id of the token on the denylist.
  logout-deny :
      (user : User) (iat lifetime now : ℕ) (jti : String) (p p' : Panel)
      → (jti == "") ≡ false
      → logout jwt now p (some (issue_access jwt user iat lifetime jti)) ≡ some p'
      → deny jti (iat + lifetime) now p ≡ p'
  unfolding logout
  logout-deny user iat lifetime now jti p p' named out =
      elim (Bool-cases (ltb now (iat + lifetime))) [
        | inr expired ↦
            let nobody : none ≡ some p' =
              sym (
                ap (deny_payload jwt now p)
                  (read_token-expired user iat lifetime now jti p expired))
              ∙ out in
            absurd (ground (arith, nobody))
        | inl valid ↦ elim (Bool-cases (not (jti == "") && is_denied jti now p)) [
          | inl denied ↦
              let nobody : none ≡ some p' =
                sym (
                  ap (deny_payload jwt now p)
                    (refused_denied user iat lifetime now jti p valid denied))
                ∙ out in
              absurd (ground (arith, nobody))
          | inr free ↦
              let payload = payload_for user iat lifetime jti in
              let denying = deny jti (iat + lifetime) now p in
              let read =
                read_token-valid user iat lifetime now jti p valid
                ∙ if-false (not (jti == "") && is_denied jti now p) none (some payload) free in
              some-injective denying p' (
                sym (
                  ap (deny_payload jwt now p) read ∙ ap some (if-false (jti == "") p denying named))
                ∙ out)
        ]
      ]

  -- After a logout with an access token, while Redis answers, the token is refused for ever: it is on the
  -- denylist until it expires, and then it is expired.
  pub get_current_user-logout :
      (user : User) (iat lifetime now later : ℕ) (jti : String) (p p' : Panel)
      → (jti == "") ≡ false
      → p.redis_up ≡ true
      → logout jwt now p (some (issue_access jwt user iat lifetime jti)) ≡ some p'
      → get_current_user jwt later p' (some (issue_access jwt user iat lifetime jti)) ≡ unauthorized
  unfolding get_current_user logout
  get_current_user-logout user iat lifetime now later jti p p' named up out =
      elim (Bool-cases (ltb later (iat + lifetime))) [
        | inr expired ↦ refused_expired user iat lifetime later jti p' expired
        | inl valid ↦
            let denied : is_denied jti later p' ≡ true =
              ap (is_denied jti later) (sym (logout-deny user iat lifetime now jti p p' named out))
              ∙ denied_until jti (iat + lifetime) now later p named up valid in
            ap (find_user jwt p')
              (refused_denied user iat lifetime later jti p' valid (ground (arith, named, denied)))
      ]

  -- A refresh token is never taken for an access token, nor an access token for a refresh token.
  issue_refresh-refused :
      (user : User) (iat lifetime now : ℕ) (jti : String) (p : Panel) (f : Fresh)
      → (get_current_user jwt now p (some (issue_refresh jwt user iat lifetime jti)) ≡ unauthorized)
        × (refresh jwt f now p (issue_access jwt user iat lifetime jti) ≡ none)
  unfolding get_current_user read_token verify refresh issue_refresh issue_access
  issue_refresh-refused user iat lifetime now jti p f =
      let exp = iat + lifetime in
      (
        ap (λ c. find_user jwt p (not_revoked jwt now p (check_claims "access" c)))
              (jwt.reads_back now exp (claims_for "refresh" user iat lifetime jti) refl)
            ∙ ap (λ c. find_user jwt p (not_revoked jwt now p c))
                (other_type (ltb now exp) (claims_for "refresh" user iat lifetime jti) "access"
                  refl),
        ap (λ c. refresh_with jwt f now p (check_claims "refresh" c))
              (jwt.reads_back now exp (claims_for "access" user iat lifetime jti) refl)
            ∙ ap (refresh_with jwt f now p) (
                other_type (ltb now exp) (claims_for "access" user iat lifetime jti) "refresh"
                  refl),
      )

  deny_payload-users :
      (now : ℕ) (p p' : Panel) (read : Option TokenPayload)
      → deny_payload jwt now p read ≡ some p'
      → p'.users ≡ p.users
  deny_payload-users now p p' none out = absurd (ground (arith, out))
  deny_payload-users now p p' (some payload) out =
      let denying = deny payload.jti payload.expires_at now p in
      ap (λ (q : Panel). q.users)
        (sym (some-injective (if payload.jti == "" then p else denying) p' out))
      ∙ either_way (λ (q : Panel). q.users ≡ p.users) (payload.jti == "") p denying refl
          (deny-users payload.jti payload.expires_at now p)

  logout-users :
      (now : ℕ) (p p' : Panel) (access : Token)
      → logout jwt now p (some access) ≡ some p'
      → p'.users ≡ p.users
  unfolding logout
  logout-users now p p' access out =
      deny_payload-users now p p' (read_token jwt now p (some access)) out

  -- A logout does not end the refresh token: it still makes a pair of tokens for a user who is there in
  -- the tenant of the token.
  refresh-logout :
      (user : User) (access : Token) (iat lifetime now later : ℕ) (jti : String) (p p' : Panel)
      (f : Fresh)
      → logout jwt now p (some access) ≡ some p'
      → Dict.get user.id p.users ≡ some user
      → ltb later (iat + lifetime) ≡ true
      → refresh jwt f later p' (issue_refresh jwt user iat lifetime jti)
        ≡ some (make_token_pair jwt f later user)
  unfolding refresh verify issue_refresh payload_of
  refresh-logout user access iat lifetime now later jti p p' f out there valid =
      let exp = iat + lifetime in
      let claims = claims_for "refresh" user iat lifetime jti in
      ap (λ c. refresh_with jwt f later p' (check_claims "refresh" c))
        (jwt.reads_back later exp claims refl ∙ if-true (ltb later exp) _ _ valid)
      ∙ ap (renew jwt f later (payload_for user iat lifetime jti))
          (ap (Dict.get user.id) (logout-users now p p' access out) ∙ there)
      ∙ if-true (nat_eq user.tenant_id user.tenant_id) _ _ (ground arith)
