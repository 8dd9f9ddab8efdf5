-- ===== src/Panel/Campaigns/Found.antt =====
-- Which calls the first query of campaigns_service.metrics finds.
use aipanel.Base.{
  ℕ, ◌≡◌, ◌≤◌, refl, ap, ◌∙◌, ◌⊎◌, true, All, List, [], ◌∷◌, ◌++◌, Option, none, some, nat_Key,
  arith, Bool-cases, inl, inr,
}
use mathlib.Core.List.{Perm, perm_middle}
use mathlib.Core.List.Perm
use aipanel.Base.Dict
use aipanel.Base.Dict.{Dict}
use aipanel.Panel.Deployments.{Deployment}
use aipanel.Panel.Campaigns.{Call, is_counted, is_id, of_deployment, counted}

-- A call of the campaign, by itself or by its deployment, of a deployment of the tenant, and of the period.
abbrev IsOf : ℕ → ℕ → Call → Deployment → Type 0
IsOf tenant_id campaign_id call d =
    (d.tenant_id ≡ tenant_id)
    × ((call.campaign_id ≡ some campaign_id) ⊎ (d.aipanel_campaign_id ≡ some campaign_id))

abbrev pub IsFound : ℕ → ℕ → ℕ → Dict ℕ Deployment → Call → Type 0
IsFound tenant_id campaign_id since deployments call =
    (d : Deployment) × (Dict.get call.deployment_id deployments ≡ some d)
    × IsOf tenant_id campaign_id call d
    × (since ≤ call.started_at)

is_id-some : (id : ℕ) (x : Option ℕ) → is_id id x ≡ true → x ≡ some id
is_id-some id none h = absurd (ground (arith, h))
is_id-some id (some other) h = let same : other ≡ id = ground (arith, h) in ap (λ n. some n) same

of_deployment-some :
    (tenant_id campaign_id : ℕ) (call : Call) (found : Option Deployment)
    → of_deployment tenant_id campaign_id call found ≡ true
    → (d : Deployment) × (found ≡ some d) × IsOf tenant_id campaign_id call d
of_deployment-some tenant_id campaign_id call none h = absurd (ground (arith, h))
of_deployment-some tenant_id campaign_id call (some d) h =
    elim (Bool-cases (is_id campaign_id call.campaign_id)) [
      | inl own ↦ (d, refl, (ground (arith, h), inl (is_id-some campaign_id call.campaign_id own)))
      | inr other ↦
          let linked : is_id campaign_id d.aipanel_campaign_id ≡ true = ground (arith, h, other) in
          (d, refl, (ground (arith, h), inr (is_id-some campaign_id d.aipanel_campaign_id linked)))
    ]

is_counted-IsFound :
    (tenant_id campaign_id since : ℕ) (deployments : Dict ℕ Deployment) (call : Call)
    → is_counted tenant_id campaign_id since deployments call ≡ true
    → IsFound tenant_id campaign_id since deployments call
unfolding is_counted
is_counted-IsFound tenant_id campaign_id since deployments call h =
    let found = Dict.get call.deployment_id deployments in
    let of_tenant : of_deployment tenant_id campaign_id call found ≡ true = ground (arith, h) in
    let (d, is, own) = of_deployment-some tenant_id campaign_id call found of_tenant in
    (d, is, own, ground (arith, h))

some-is_id : (id : ℕ) (x : Option ℕ) → x ≡ some id → is_id id x ≡ true
some-is_id id x h = ap (is_id id) h ∙ ground arith

some-of_deployment :
    (tenant_id campaign_id : ℕ) (call : Call) (d : Deployment)
    → IsOf tenant_id campaign_id call d
    → of_deployment tenant_id campaign_id call (some d) ≡ true
some-of_deployment tenant_id campaign_id call d (own, inl direct) =
    ground (arith, own, some-is_id campaign_id call.campaign_id direct)
some-of_deployment tenant_id campaign_id call d (own, inr linked) =
    ground (arith, own, some-is_id campaign_id d.aipanel_campaign_id linked)

IsFound-is_counted :
    (tenant_id campaign_id since : ℕ) (deployments : Dict ℕ Deployment) (call : Call)
    → IsFound tenant_id campaign_id since deployments call
    → is_counted tenant_id campaign_id since deployments call ≡ true
unfolding is_counted
IsFound-is_counted tenant_id campaign_id since deployments call (d, is, own, began) =
    let of_tenant =
      ap (of_deployment tenant_id campaign_id call) is
      ∙ some-of_deployment tenant_id campaign_id call d own in
    ground (arith, began, of_tenant)

-- The rows that a query finds are all the calls of the table that it asks for, and no others.
abbrev pub Finds : (Call → Type 0) → List Call → List Call → Type 0
Finds IsWanted base calls =
    (rest : List Call) × Perm (base ++ rest) calls
    × All IsWanted base
    × All (λ (call : Call). ¬ (IsWanted call)) rest

Finds-more :
    (IsWanted : Call → Type 0) (call : Call) (base calls : List Call)
    → IsWanted call
    → Finds IsWanted base calls
    → Finds IsWanted (call ∷ base) (call ∷ calls)
Finds-more IsWanted call base calls wanted (rest, all, found, others) =
    (rest, Perm.cons call all, (wanted, found), others)

Finds-other :
    (IsWanted : Call → Type 0) (call : Call) (base calls : List Call)
    → ¬ (IsWanted call)
    → Finds IsWanted base calls
    → Finds IsWanted base (call ∷ calls)
Finds-other IsWanted call base calls unwanted (rest, all, found, others) = (
  call ∷ rest,
  Perm.trans (perm_middle base rest) (Perm.cons call all),
  found,
  (unwanted, others),
)

pub counted-Finds :
    (tenant_id campaign_id since : ℕ) (deployments : Dict ℕ Deployment) (calls : List Call)
    → Finds
        (IsFound tenant_id campaign_id since deployments)
        (counted (is_counted tenant_id campaign_id since deployments) calls)
        calls
counted-Finds tenant_id campaign_id since deployments [] = ([], Perm.refl [], tt, tt)
counted-Finds tenant_id campaign_id since deployments (call ∷ calls) =
    let IsWanted = IsFound tenant_id campaign_id since deployments in
    let base = counted (is_counted tenant_id campaign_id since deployments) calls in
    let rest = counted-Finds tenant_id campaign_id since deployments calls in
    elim (Bool-cases (is_counted tenant_id campaign_id since deployments call)) [
      | inl found ↦ rw found (
          Finds-more IsWanted call base calls
            (is_counted-IsFound tenant_id campaign_id since deployments call found) rest)
      | inr other ↦
          let unwanted : ¬ (IsWanted call) = λ wanted. ground (
            arith,
            other,
            IsFound-is_counted tenant_id campaign_id since deployments call wanted,
          ) in
          rw other (Finds-other IsWanted call base calls unwanted rest)
    ]
