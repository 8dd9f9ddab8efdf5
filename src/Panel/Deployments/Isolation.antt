-- ===== src/Panel/Deployments/Isolation.antt =====
-- What the users of one tenant can do to the deployments of another, and what they see, in
-- panel/backend/src/aipanel/services/deployment_service.py and api/v1/deployments.py.
use aipanel.Base.{
  ℕ, ◌≡◌, refl, sym, ap, subst, ◌∙◌, String, true, false, ◌&&◌, List, [], ◌∷◌, zero, suc, Option,
  none, some, take, drop, All, nat_eq, if◌then◌else◌, if-true, if-false, either_way, string_Key,
  nat_Key, arith, Bool-cases, inl, inr,
}
use aipanel.Base.Dict
use aipanel.Panel.Auth.{User, Access, forbidden, granted, require_role, listed}
use aipanel.Panel.Deployments.{
  Deployment, Table, Reply, found, page, done, http_error, own, get_deployment, is_listed, select,
  list_deployments, insert, new_deployment, create_deployment, on_own, update_deployment, updated,
  set_status, ok_reply, remove_own, delete_deployment, reply_found, Request, list, get, start, stop,
  delete, create, update, writes, roles_write, serve, serve_access, handle,
}

-- `d` stands in the table under `j`.
abbrev Stands : ℕ → Deployment → Reply × Table → Type 0
Stands j d r = Dict.get j r.1 ≡ some d

own-other :
    (t : ℕ) (o : Option Deployment) (d : Deployment)
    → o ≡ some d
    → nat_eq d.tenant_id t ≡ false
    → own t o ≡ none
own-other t o d e other = ap (own t) e ∙ if-false (nat_eq d.tenant_id t) _ _ other

insert-Stands :
    (id j : ℕ) (d new : Deployment) (o : Option Deployment) (table : Table)
    → Dict.get id table ≡ o
    → Dict.get j table ≡ some d
    → Stands j d (insert id new o table)
insert-Stands id j d new (some taken) table e there = there
insert-Stands id j d new none table e there = elim (Bool-cases (nat_eq id j)) [
  | inr other ↦ Dict.get-put id j new table ∙ if-false (nat_eq id j) _ _ other ∙ there
  | inl this ↦
      let same : id ≡ j = ground (arith, this) in
      let clash : none ≡ some d = sym e ∙ ap (λ k. Dict.get k table) same ∙ there in
      absurd (ground (arith, clash))
]

change-Stands :
    (id j : ℕ) (d : Deployment) (change : Deployment → Deployment) (o : Option Deployment)
    (table : Table)
    → nat_eq id j ≡ false
    → Dict.get j table ≡ some d
    → Stands j d (on_own id change o table)
change-Stands id j d change none table apart there = there
change-Stands id j d change (some e) table apart there =
    Dict.get-put id j (change e) table ∙ if-false (nat_eq id j) _ _ apart ∙ there

-- What is written under another id, or not at all.
on_own-Stands :
    (t id j : ℕ) (d : Deployment) (change : Deployment → Deployment) (table : Table)
    → Dict.get j table ≡ some d
    → nat_eq d.tenant_id t ≡ false
    → Stands j d (on_own id change (get_deployment t id table) table)
unfolding get_deployment
on_own-Stands t id j d change table there other = elim (Bool-cases (nat_eq id j)) [
  | inl this ↦
      let same : id ≡ j = ground (arith, this) in
      subst (λ o. Stands j d (on_own id change o table))
        (sym (own-other t (Dict.get id table) d (ap (λ k. Dict.get k table) same ∙ there) other))
        there
  | inr apart ↦ change-Stands id j d change (own t (Dict.get id table)) table apart there
]

remove-Stands :
    (id j : ℕ) (d : Deployment) (o : Option Deployment) (table : Table)
    → nat_eq id j ≡ false
    → Dict.get j table ≡ some d
    → Stands j d (remove_own id o table)
remove-Stands id j d none table apart there = there
remove-Stands id j d (some e) table apart there =
    Dict.get-remove id j table ∙ if-false (nat_eq id j) _ _ apart ∙ there

delete-Stands :
    (t id j : ℕ) (d : Deployment) (table : Table)
    → Dict.get j table ≡ some d
    → nat_eq d.tenant_id t ≡ false
    → Stands j d (delete_deployment t id table)
unfolding delete_deployment get_deployment
delete-Stands t id j d table there other = elim (Bool-cases (nat_eq id j)) [
  | inl this ↦
      let same : id ≡ j = ground (arith, this) in
      subst (λ o. Stands j d (remove_own id o table))
        (sym (own-other t (Dict.get id table) d (ap (λ k. Dict.get k table) same ∙ there) other))
        there
  | inr apart ↦ remove-Stands id j d (own t (Dict.get id table)) table apart there
]

module _ (encrypt : String → String) (order : List Deployment → List Deployment) where
  serve-Stands :
      (t j : ℕ) (d : Deployment) (request : Request) (table : Table)
      → Dict.get j table ≡ some d
      → nat_eq d.tenant_id t ≡ false
      → Stands j d (serve encrypt order t request table)
  unfolding serve create_deployment update_deployment set_status
  serve-Stands t j d (list limit offset status) table there other = there
  serve-Stands t j d (get id) table there other = there
  serve-Stands t j d (create id payload) table there other =
      insert-Stands id j d (new_deployment encrypt t payload) (Dict.get id table) table refl there
  serve-Stands t j d (update id payload) table there other =
      on_own-Stands t id j d (updated encrypt payload) table there other
  serve-Stands t j d (start id) table there other =
      on_own-Stands t id j d (λ e. record e { status = "starting" }) table there other
  serve-Stands t j d (stop id) table there other =
      on_own-Stands t id j d (λ e. record e { status = "stopped" }) table there other
  serve-Stands t j d (delete id) table there other = delete-Stands t id j d table there other

  serve-reads :
      (t : ℕ) (request : Request) (table : Table)
      → writes request ≡ false
      → (serve encrypt order t request table).1 ≡ table
  unfolding serve
  serve-reads t (list limit offset status) table reading = refl
  serve-reads t (get id) table reading = refl
  serve-reads t (create id payload) table reading = absurd (ground (arith, reading))
  serve-reads t (update id payload) table reading = absurd (ground (arith, reading))
  serve-reads t (start id) table reading = absurd (ground (arith, reading))
  serve-reads t (stop id) table reading = absurd (ground (arith, reading))
  serve-reads t (delete id) table reading = absurd (ground (arith, reading))

  -- A deployment that is there stays as it is, whatever is asked by a user of another tenant, or without
  -- the role of an admin or an operator.
  pub handle-Stands :
      (user : User) (j : ℕ) (d : Deployment) (request : Request) (table : Table)
      → Dict.get j table ≡ some d
      → (nat_eq d.tenant_id user.tenant_id && listed user.role roles_write) ≡ false
      → Dict.get j (handle encrypt order (granted user) request table).1 ≡ some d
  unfolding handle require_role
  handle-Stands user j d request table there other =
      elim (Bool-cases (listed user.role roles_write)) [
        | inl writer ↦
            let allowed : (if writes request
                  then require_role roles_write (granted user)
                  else granted user)
                ≡ granted user =
              either_way (λ (access : Access). access ≡ granted user) (writes request)
                (require_role roles_write (granted user)) (granted user)
                (if-true (listed user.role roles_write) (granted user) forbidden writer) refl in
            subst (λ access. Stands j d (serve_access encrypt order access request table))
              (sym allowed)
              (serve-Stands user.tenant_id j d request table there (ground (arith, other, writer)))
        | inr reader ↦ elim (Bool-cases (writes request)) [
          | inl writing ↦
              let refused =
                if-true (writes request) (require_role roles_write (granted user)) (granted user)
                  writing
                ∙ if-false (listed user.role roles_write) (granted user) forbidden reader in
              subst (λ access. Stands j d (serve_access encrypt order access request table))
                (sym refused) there
          | inr reading ↦
              subst (λ access. Stands j d (serve_access encrypt order access request table))
                (sym (
                  if-false (writes request) (require_role roles_write (granted user)) (granted user)
                    reading))
                (ap (Dict.get j) (serve-reads user.tenant_id request table reading) ∙ there)
        ]
      ]

-- What an answer shows is the tenant's.
abbrev IsOwn : ℕ → Deployment → Type 0
IsOwn t d = nat_eq d.tenant_id t ≡ true

abbrev pub Shows : ℕ → Reply → Type 0
Shows t (found d) = IsOwn t d
Shows t (page rows total) = All (IsOwn t) rows
Shows t done = Unit
Shows t (http_error status) = Unit

listed-IsOwn :
    (t : ℕ) (status : Option String) (d : Deployment) → is_listed t status d ≡ true → IsOwn t d
listed-IsOwn t none d shown = shown
listed-IsOwn t (some status) d shown = ground (arith, shown)

select-IsOwn :
    (t : ℕ) (status : Option String) (table : Table) → All (IsOwn t) (select t status table)
select-IsOwn t status [] = tt
select-IsOwn t status ((id, d) ∷ table) = elim (Bool-cases (is_listed t status d)) [
  | inl shown ↦ rw shown (listed-IsOwn t status d shown, select-IsOwn t status table)
  | inr hidden ↦ rw hidden (select-IsOwn t status table)
]

All-take : (t n : ℕ) (rows : List Deployment) → All (IsOwn t) rows → All (IsOwn t) (take n rows)
All-take t zero rows all = tt
All-take t (suc n) [] all = tt
All-take t (suc n) (d ∷ rows) (head, all) = (head, All-take t n rows all)

All-drop : (t n : ℕ) (rows : List Deployment) → All (IsOwn t) rows → All (IsOwn t) (drop n rows)
All-drop t zero rows all = all
All-drop t (suc n) [] all = tt
All-drop t (suc n) (d ∷ rows) (head, all) = All-drop t n rows all

own-Shows : (t : ℕ) (o : Option Deployment) → Shows t (reply_found (own t o))
own-Shows t none = tt
own-Shows t (some d) = elim (Bool-cases (nat_eq d.tenant_id t)) [
  | inl mine ↦ rw mine mine
  | inr other ↦ rw other tt
]

change-Shows :
    (t id : ℕ) (change : Deployment → Deployment) (o : Option Deployment) (table : Table)
    → Shows t (reply_found o)
    → ((d : Deployment) → (change d).tenant_id ≡ d.tenant_id)
    → Shows t (on_own id change o table).0
change-Shows t id change none table shown keeps = tt
change-Shows t id change (some d) table shown keeps = ap (λ u. nat_eq u t) (keeps d) ∙ shown

insert-Shows :
    (t id : ℕ) (d : Deployment) (o : Option Deployment) (table : Table)
    → IsOwn t d
    → Shows t (insert id d o table).0
insert-Shows t id d none table mine = mine
insert-Shows t id d (some e) table mine = tt

remove-Shows :
    (t id : ℕ) (o : Option Deployment) (table : Table) → Shows t (remove_own id o table).0
remove-Shows t id none table = tt
remove-Shows t id (some d) table = tt

ok-Shows : (t : ℕ) (r : Reply) → Shows t r → Shows t (ok_reply r)
ok-Shows t (found d) v = tt
ok-Shows t (page rows total) v = v
ok-Shows t done v = tt
ok-Shows t (http_error code) v = tt

-- Whatever a user asks, where the order of the database shows no row that it was not given: every
-- deployment in the answer is of the tenant of the user.
pub serve-Shows :
    (encrypt : String → String) (order : List Deployment → List Deployment) (t : ℕ)
    (request : Request) (table : Table)
    → ((rows : List Deployment) → All (IsOwn t) rows → All (IsOwn t) (order rows))
    → Shows t (serve encrypt order t request table).0
unfolding serve list_deployments get_deployment create_deployment update_deployment set_status
    delete_deployment
serve-Shows encrypt order t (list limit offset status) table keeps =
    All-take t limit (drop offset (order (select t status table))) (
      All-drop t offset (order (select t status table))
        (keeps (select t status table) (select-IsOwn t status table)))
serve-Shows encrypt order t (get id) table keeps = own-Shows t (Dict.get id table)
serve-Shows encrypt order t (create id payload) table keeps =
    insert-Shows t id (new_deployment encrypt t payload) (Dict.get id table) table (ground arith)
serve-Shows encrypt order t (update id payload) table keeps =
    change-Shows t id (updated encrypt payload) (own t (Dict.get id table)) table
      (own-Shows t (Dict.get id table)) (λ d. refl)
serve-Shows encrypt order t (start id) table keeps =
    ok-Shows t (set_status t id "starting" table).0 (
      change-Shows t id (λ d. record d { status = "starting" }) (own t (Dict.get id table)) table
        (own-Shows t (Dict.get id table)) (λ d. refl))
serve-Shows encrypt order t (stop id) table keeps = ok-Shows t (set_status t id "stopped" table).0 (
    change-Shows t id (λ d. record d { status = "stopped" }) (own t (Dict.get id table)) table
      (own-Shows t (Dict.get id table)) (λ d. refl))
serve-Shows encrypt order t (delete id) table keeps =
    remove-Shows t id (own t (Dict.get id table)) table
