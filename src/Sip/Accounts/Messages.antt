-- ===== src/Sip/Accounts/Messages.antt =====
-- sip/src/aipanel_sip/account_manager.py: which deployments have an account, after a message on the channel.
use aipanel.Base.{
  is_some, ℕ, ◌≡◌, refl, ap, ◌∙◌, String, Bool, false, not, ◌&&◌, ◌||◌, Option-cases, List, [], ◌∷◌,
  Option, none, some, inl, inr, nat_eq, nat_eq_iff, nat_Key, if◌then◌else◌, string_Key, arith,
}
use aipanel.Base.Dict
use aipanel.Base.Dict.{Dict, get-put, get-remove}
use aipanel.Sip.Accounts.{
  SipAccount, Manager, DbRow, selects, model_of, models_of, fetch_models, create_new,
  create_account, create_accounts, destroy_account, Action, add_account, update_account,
  remove_account, unknown_action, act,
}

-- `did in self._accounts`.
abbrev pub has : ℕ → Manager → Bool
has did m = is_some (Dict.get did m.accounts)

module _ (decrypt : String → Option String) (creates : SipAccount → Bool) where
  abbrev creates_one : Option SipAccount → Bool
  creates_one none = false
  creates_one (some model) = creates model

  -- A row from which an account of a deployment can be made.
  abbrev serves : ℕ → DbRow → Bool
  serves did row = selects (some did) row && creates_one (model_of decrypt creates row)

  abbrev any_serves : ℕ → List DbRow → Bool
  any_serves did [] = false
  any_serves did (row ∷ rows) = serves did row || any_serves did rows

  -- The database can be read and has such a row.
  abbrev is_served : ℕ → Option (List DbRow) → Bool
  is_served did none = false
  is_served did (some rows) = any_serves did rows

  abbrev any_created : ℕ → List SipAccount → Bool
  any_created did [] = false
  any_created did (model ∷ models) =
      (nat_eq model.deployment_id did && creates model) || any_created did models

  has-create_account :
      (did : ℕ) (model : SipAccount) (m : Manager)
      → has did (create_account decrypt creates model m)
        ≡ (has did m || (nat_eq model.deployment_id did && creates model))
  unfolding create_account create_new
  has-create_account did model m = elim (Option-cases (Dict.get model.deployment_id m.accounts)) [
    | inl e ↦ ground (
      arith,
      e,
      get-put model.deployment_id did m.made m.accounts,
      nat_eq_iff model.deployment_id did,
    )
    | inr (object, e) ↦ ground (arith, e, nat_eq_iff model.deployment_id did)
  ]

  has-create_accounts :
      (did : ℕ) (models : List SipAccount) (m : Manager)
      → has did (create_accounts decrypt creates models m) ≡ (has did m || any_created did models)
  unfolding create_accounts
  has-create_accounts did [] m = ground arith
  has-create_accounts did (model ∷ models) m = ground (
    arith,
    has-create_accounts did models (create_account decrypt creates model m),
    has-create_account did model m,
  )

  has-destroy_account :
      (did k : ℕ) (m : Manager)
      → has did (destroy_account decrypt creates k m) ≡ (has did m && not (nat_eq k did))
  unfolding destroy_account
  has-destroy_account did k m = ground (arith, get-remove k did m.accounts, nat_eq_iff k did)

  -- What the models of one deployment can create, as the rows say it.
  any_created-models :
      (did j : ℕ) (rows : List DbRow)
      → any_created j (models_of decrypt creates (some did) rows)
        ≡ (nat_eq did j && any_serves did rows)
  unfolding models_of model_of
  any_created-models did j [] = ground arith
  any_created-models did j (row ∷ rows) =
      let ih = any_created-models did j rows in
      elim (Option-cases (decrypt row.phone_pass_encrypted)) [
        | inl e ↦ ground (arith, e, ih, nat_eq_iff row.deployment_id did)
        | inr (p, e) ↦ ground (arith, e, ih, nat_eq_iff row.deployment_id did)
      ]

  any_created-fetch :
      (did j : ℕ) (db : Option (List DbRow))
      → any_created j (fetch_models decrypt creates (some did) db)
        ≡ (nat_eq did j && is_served did db)
  unfolding fetch_models
  any_created-fetch did j none = ground arith
  any_created-fetch did j (some rows) = any_created-models did j rows

  -- Who has an account after a message, from who had one before.
  abbrev pub has_after : Option (List DbRow) → Action → ℕ → ℕ → Bool → Bool
  has_after db add_account did j before = before || (nat_eq did j && is_served did db)
  has_after db update_account did j before = if nat_eq did j then is_served did db else before
  has_after db remove_account did j before = before && not (nat_eq did j)
  has_after db unknown_action did j before = before

  -- After a message about a deployment, an account is there for the deployments that had one, except
  -- for the one that the message names: after "remove" it has none; after "update" it has one exactly
  -- if the database can be read and has an active row of it with a password that can be decrypted and
  -- from which PJSIP creates an account; after "add" also if it had one before.
  pub has-act :
      (db : Option (List DbRow)) (action : Action) (did : ℕ) (m : Manager) (j : ℕ)
      → has j (act decrypt creates db action did m) ≡ has_after db action did j (has j m)
  unfolding act
  has-act db add_account did m j =
      has-create_accounts j (fetch_models decrypt creates (some did) db) m
      ∙ ap (λ b. has j m || b) (any_created-fetch did j db)
  has-act db update_account did m j = ground (
    arith,
    has-create_accounts j (fetch_models decrypt creates (some did) db)
        (destroy_account decrypt creates did m),
    any_created-fetch did j db,
    has-destroy_account j did m,
  )
  has-act db remove_account did m j = has-destroy_account j did m
  has-act db unknown_action did m j = refl
