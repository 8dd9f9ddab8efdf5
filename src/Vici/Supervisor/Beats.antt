-- ===== src/Vici/Supervisor/Beats.antt =====
-- session-mgr/src/aipanel_vici/heartbeat.py: one heartbeat task for each worker of the supervisor.
use aipanel.Base.{
  is_some, ℕ, ◌+◌, ◌≡◌, refl, ap, ◌∙◌, Bool, false, not, ◌&&◌, ◌||◌, Bool-cases, List, [], ◌∷◌,
  ◌++◌, none, some, inl, inr, nat_eq, nat_eq_iff, nat_Key, if◌then◌else◌, if-true, if-false, arith,
  map,
}
use aipanel.Base.Dict
use aipanel.Base.Dict.{Dict, get-put, get-remove}

-- A task is a number; `created` numbers the next one, and `cancelled` records the tasks that were
-- cancelled. A task runs the heartbeats of the worker that it was created for.
pub record Scheduler : Type 0 where
  pub tasks : Dict ℕ ℕ
  pub created : ℕ
  pub cancelled : List ℕ

abbrev is_key {ℓ} : {V : Type ℓ} → ℕ → Dict ℕ V → Bool
is_key k [] = false
is_key k ((j, v) ∷ d) = nat_eq j k || is_key k d

-- `live_ids - self._tasks.keys()`, one after another.
spawn : List ℕ → Scheduler → Scheduler
spawn [] s = s
spawn (did ∷ ids) s = spawn ids (
    if is_key did s.tasks
    then s
    else record s { tasks = Dict.put did s.created s.tasks; created = s.created + 1 })

-- `self._tasks.pop(did)` and `cancel`.
cancel : ℕ → Scheduler → Scheduler
cancel did s = elim (Dict.get did s.tasks) [
  | none ↦ s
  | some t ↦ record s { tasks = Dict.remove did s.tasks; cancelled = s.cancelled ++ t ∷ [] }
]

-- `self._tasks.keys() - live_ids`.
drop_departed {ℓ} : {V : Type ℓ} → Dict ℕ V → List ℕ → Scheduler → Scheduler
drop_departed live [] s = s
drop_departed live (did ∷ ids) s =
    drop_departed live ids (if is_key did live then s else cancel did s)

abbrev pub keys {ℓ} : {V : Type ℓ} → Dict ℕ V → List ℕ
keys d = map (λ entry. entry.0) d

-- `_reconcile_tasks`, on the workers of the supervisor.
reconcile {ℓ} : {V : Type ℓ} → Dict ℕ V → Scheduler → Scheduler
reconcile live s =
    let spawned = spawn (keys live) s in drop_departed live (keys spawned.tasks) spawned

-- `stop`: every task is cancelled, and the table is empty.
unfoldable pub stop : Scheduler → Scheduler
stop s = record s { tasks = []; cancelled = s.cancelled ++ map (λ entry. entry.1) s.tasks }

is_key-get : (k : ℕ) (d : Dict ℕ ℕ) → is_key k d ≡ is_some (Dict.get k d)
unfolding Dict.get
is_key-get k [] = refl
is_key-get k ((j, v) ∷ d) = ground (arith, is_key-get k d)

is_key-put : (k j t : ℕ) (d : Dict ℕ ℕ) → is_key k (Dict.put j t d) ≡ (is_key k d || nat_eq j k)
unfolding Dict.put
is_key-put k j t [] = ground arith
is_key-put k j t ((i, v) ∷ d) = ground (arith, is_key-put k j t d, nat_eq_iff i j)

is_key-remove :
    (k j : ℕ) (d : Dict ℕ ℕ) → is_key k (Dict.remove j d) ≡ (is_key k d && not (nat_eq j k))
unfolding Dict.remove
is_key-remove k j [] = refl
is_key-remove k j ((i, v) ∷ d) =
    ground (arith, is_key-remove k j d, nat_eq_iff i j, nat_eq_iff i k, nat_eq_iff j k)

abbrev pub is_among : ℕ → List ℕ → Bool
is_among did [] = false
is_among did (k ∷ ks) = nat_eq k did || is_among did ks

is_among-keys {ℓ} : {V : Type ℓ} (did : ℕ) (d : Dict ℕ V) → is_among did (keys d) ≡ is_key did d
is_among-keys did [] = refl
is_among-keys did ((k, v) ∷ d) = ap (λ b. nat_eq k did || b) (is_among-keys did d)

is_key-spawn :
    (did : ℕ) (ids : List ℕ) (s : Scheduler)
    → is_key did (spawn ids s).tasks ≡ (is_key did s.tasks || is_among did ids)
unfolding spawn
is_key-spawn did [] s = ground arith
is_key-spawn did (k ∷ ids) s = elim (Bool-cases (is_key k s.tasks)) [
  | inl there ↦
      ap (λ (x : Scheduler). is_key did (spawn ids x).tasks) (if-true _ _ _ there)
      ∙ is_key-spawn did ids s
      ∙ ground (arith, nat_eq_iff k did)
  | inr new ↦
      ap (λ (x : Scheduler). is_key did (spawn ids x).tasks) (if-false _ _ _ new)
      ∙ is_key-spawn did ids
          (record s { tasks = Dict.put k s.created s.tasks; created = s.created + 1 })
      ∙ ground (arith, is_key-put did k s.created s.tasks)
]

is_key-cancel :
    (did k : ℕ) (s : Scheduler)
    → is_key did (cancel k s).tasks ≡ (is_key did s.tasks && not (nat_eq k did))
unfolding cancel
is_key-cancel did k s =
    ground (arith, is_key-get k s.tasks, is_key-remove did k s.tasks, nat_eq_iff k did)

is_key-drop_departed {ℓ} :
    {V : Type ℓ} (live : Dict ℕ V) (did : ℕ) (ids : List ℕ) (s : Scheduler)
    → is_key did (drop_departed live ids s).tasks
      ≡ (is_key did s.tasks && not (is_among did ids && not (is_key did live)))
unfolding drop_departed
is_key-drop_departed live did [] s = ground arith
is_key-drop_departed live did (k ∷ ids) s = elim (Bool-cases (is_key k live)) [
  | inl there ↦
      ap (λ (x : Scheduler). is_key did (drop_departed live ids x).tasks) (if-true _ _ _ there)
      ∙ is_key-drop_departed live did ids s
      ∙ ground (arith, nat_eq_iff k did)
  | inr gone ↦
      ap (λ (x : Scheduler). is_key did (drop_departed live ids x).tasks) (if-false _ _ _ gone)
      ∙ is_key-drop_departed live did ids (cancel k s)
      ∙ ground (arith, is_key-cancel did k s, nat_eq_iff k did)
]

-- After a round exactly the workers of the supervisor have a heartbeat task.
is_key-reconcile {ℓ} :
    {V : Type ℓ} (live : Dict ℕ V) (s : Scheduler) (did : ℕ)
    → is_key did (reconcile live s).tasks ≡ is_key did live
unfolding reconcile
is_key-reconcile live s did =
    let spawned = spawn (keys live) s in
    ground (
      arith,
      is_key-spawn did (keys live) s,
      is_key-drop_departed live did (keys spawned.tasks) spawned,
      is_among-keys did live,
      is_among-keys did spawned.tasks,
    )
