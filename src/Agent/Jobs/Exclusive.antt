-- ===== src/Agent/Jobs/Exclusive.antt =====
-- The workers of workers/src/aipanel_worker/main.py and the Redis that they share: no call is handled twice
-- at once, and no permit is lost.
use aipanel.Base.{
  ℕ, ◌+◌, ◌-◌, ◌≡◌, refl, sym, ap, subst, ◌∙◌, Text, Bool, true, false, ◌&&◌, ◌||◌, List, [], ◌∷◌,
  some, is_empty, nat_eq, if◌then◌else◌, if-true, if-false, either_way, arith, Bool-cases,
  Option-cases, inl, inr,
}
use aipanel.Base.Texts.{same_text}
use aipanel.Agent.Session.Config.{Value, CallJob, from_payload}
use aipanel.Agent.Jobs.{
  Pulled, raises, nothing, got_object, got_text, got_other, object, quoted, null, other_value,
  invalid, System, member, without, set, crash, reserve_and_run, take_job, on_pulled, supervise,
  take_out, finished, finish, Step, pulls, finishes, runs_out, step, steps,
}
use aipanel.Agent.Jobs.Tasks.{
  calls, IsDistinct, same_text_refl, IsCovered, count, covered-member, IsCovered-reserve,
  member-head, IsCovered-release, take_out-IsTaken,
}

-- Of each worker, the permits, the tasks, and one for a supervisor that has crashed, are `n`.
abbrev IsBalanced : ℕ → System → Type 0
IsBalanced n s = (j : ℕ) → s.permits j + (count j s.handled + (if s.crashed j then 1 else 0)) ≡ n

abbrev pub IsExclusive : ℕ → System → Type 0
IsExclusive n s = IsDistinct (calls s.handled) × IsCovered s.reserved s.handled × IsBalanced n s

crash-IsExclusive :
    (n i : ℕ) (s : System)
    → s.crashed i ≡ false
    → nat_eq (s.permits i) 0 ≡ false
    → IsExclusive n s
    → IsExclusive n (crash i s)
crash-IsExclusive n i s alive free (d, v, b) = (d, v, λ j. ground (arith, alive, free, b i, b j))

reserve-IsExclusive :
    (n i : ℕ) (c : Text) (s : System)
    → nat_eq (s.permits i) 0 ≡ false
    → IsExclusive n s
    → IsExclusive n (reserve_and_run i c s)
unfolding reserve_and_run
reserve-IsExclusive n i c s free (d, v, b) = elim (Bool-cases (member c s.reserved)) [
  | inl taken ↦ subst (IsExclusive n) (sym (if-true (member c s.reserved) _ _ taken)) (d, v, b)
  | inr open_call ↦ subst (IsExclusive n) (sym (if-false (member c s.reserved) _ _ open_call)) (
    (covered-member c s.reserved s.handled v open_call, d),
    (member-head c s.reserved, IsCovered-reserve c s.reserved s.handled v),
    λ j. ground (arith, free, b i, b j),
  )
]

take_job-IsExclusive :
    (n i : ℕ) (redis_up : Bool) (job : CallJob) (s : System)
    → s.crashed i ≡ false
    → nat_eq (s.permits i) 0 ≡ false
    → IsExclusive n s
    → IsExclusive n (take_job i redis_up job s)
unfolding take_job
take_job-IsExclusive n i redis_up job s alive free v =
    let reserved = reserve_and_run i job.call_id s in
    either_way (IsExclusive n) (is_empty job.call_id || is_empty job.sip_socket_path) s
      (if redis_up then reserved else crash i s) v
      (either_way (IsExclusive n) redis_up reserved (crash i s)
        (reserve-IsExclusive n i job.call_id s free v) (crash-IsExclusive n i s alive free v))

pulled-IsExclusive :
    (show : Value → Text) (n i : ℕ) (redis_up : Bool) (pulled : Pulled) (s : System)
    → s.crashed i ≡ false
    → nat_eq (s.permits i) 0 ≡ false
    → IsExclusive n s
    → IsExclusive n (on_pulled show i redis_up pulled s)
pulled-IsExclusive show n i redis_up raises s alive free v = v
pulled-IsExclusive show n i redis_up nothing s alive free v = v
pulled-IsExclusive show n i redis_up got_other s alive free v = crash-IsExclusive n i s alive free v
pulled-IsExclusive show n i redis_up (got_object raw) s alive free v =
    take_job-IsExclusive n i redis_up (from_payload show raw) s alive free v
pulled-IsExclusive show n i redis_up (got_text (object raw)) s alive free v =
    take_job-IsExclusive n i redis_up (from_payload show raw) s alive free v
pulled-IsExclusive show n i redis_up (got_text invalid) s alive free v = v
pulled-IsExclusive show n i redis_up (got_text (quoted inner)) s alive free v =
    crash-IsExclusive n i s alive free v
pulled-IsExclusive show n i redis_up (got_text null) s alive free v =
    crash-IsExclusive n i s alive free v
pulled-IsExclusive show n i redis_up (got_text other_value) s alive free v =
    crash-IsExclusive n i s alive free v

supervise-IsExclusive :
    (show : Value → Text) (n i : ℕ) (redis_up : Bool) (pulled : Pulled) (s : System)
    → IsExclusive n s
    → IsExclusive n (supervise show i redis_up pulled s)
unfolding supervise
supervise-IsExclusive show n i redis_up pulled s v =
    elim (Bool-cases (s.crashed i || nat_eq (s.permits i) 0)) [
      | inl waits ↦
          subst (IsExclusive n) (sym (if-true (s.crashed i || nat_eq (s.permits i) 0) _ _ waits)) v
      | inr goes ↦
          subst (IsExclusive n) (sym (if-false (s.crashed i || nat_eq (s.permits i) 0) _ _ goes)) (
            pulled-IsExclusive show n i redis_up pulled s (ground (arith, goes))
              (ground (arith, goes)) v)
    ]

finish-IsExclusive :
    (n i : ℕ) (redis_up : Bool) (c : Text) (s : System)
    → IsExclusive n s
    → IsExclusive n (finish i redis_up c s)
unfolding finish
finish-IsExclusive n i redis_up c s (d, v, b) = elim (Option-cases (take_out i c s.handled)) [
  | inl none_such ↦
      subst (λ found. IsExclusive n (finished i redis_up c found s)) (sym none_such) (d, v, b)
  | inr (rest, found) ↦
      let (there, gone, d', v', counts, subset) =
        take_out-IsTaken i c s.handled rest s.reserved d v found in
      subst (λ taken. IsExclusive n (finished i redis_up c taken s)) (sym found)
        (
          d',
          either_way (λ reserved. IsCovered reserved rest) redis_up (without c s.reserved)
              s.reserved (IsCovered-release c s.reserved rest gone v') v',
          λ j. ground (arith, counts j, b i, b j),
        )
]

-- A reservation that runs out is not that of a call that is being handled.
abbrev Outlasts : Step → System → Type 0
Outlasts (pulls i redis_up pulled) s = Unit
Outlasts (finishes i redis_up c) s = Unit
Outlasts (runs_out c) s = member c (calls s.handled) ≡ false

abbrev pub IsTimely : (Value → Text) → List Step → System → Type 0
IsTimely show [] s = Unit
IsTimely show (e ∷ es) s = Outlasts e s × IsTimely show es (step show e s)

step-IsExclusive :
    (show : Value → Text) (n : ℕ) (e : Step) (s : System)
    → Outlasts e s
    → IsExclusive n s
    → IsExclusive n (step show e s)
unfolding step
step-IsExclusive show n (pulls i redis_up pulled) s lasts v =
    supervise-IsExclusive show n i redis_up pulled s v
step-IsExclusive show n (finishes i redis_up c) s lasts v = finish-IsExclusive n i redis_up c s v
step-IsExclusive show n (runs_out c) s lasts (d, v, b) =
    (d, IsCovered-release c s.reserved s.handled lasts v, b)

-- Whatever the workers pull, in whatever order their calls end, and whichever reservations run out that
-- are not those of calls being handled, from a state that is so: no call has two tasks, every task's call
-- is reserved, and of each worker the permits, the tasks and the permit that a crash has cost are as many
-- as before.
pub steps-IsExclusive :
    (show : Value → Text) (n : ℕ) (es : List Step) (s : System)
    → IsTimely show es s
    → IsExclusive n s
    → IsExclusive n (steps show es s)
unfolding steps
steps-IsExclusive show n [] s timely v = v
steps-IsExclusive show n (e ∷ es) s (lasts, timely) v =
    steps-IsExclusive show n es (step show e s) timely (step-IsExclusive show n e s lasts v)

without-free : (c : Text) (cs : List Text) → member c cs ≡ false → without c cs ≡ cs
without-free c [] free = refl
without-free c (d ∷ cs) free =
    if-false (same_text d c) _ _ (ground (arith, free))
    ∙ ap (λ rest. d ∷ rest) (without-free c cs (ground (arith, free)))

-- A call that a worker has taken and that has ended leaves no trace: the tasks, the reservations and the
-- permits are those of before, so that it can be taken again.
finish-reserve_and_run :
    (i : ℕ) (c : Text) (s : System)
    → member c s.reserved ≡ false
    → nat_eq (s.permits i) 0 ≡ false
    → let done = finish i true c (reserve_and_run i c s) in
      (done.reserved ≡ s.reserved)
      × (done.handled ≡ s.handled)
      × ((j : ℕ) → done.permits j ≡ s.permits j)
unfolding finish reserve_and_run
finish-reserve_and_run i c s free some_left =
    let taken = record s {
      reserved = c ∷ s.reserved;
      handled = (i, c) ∷ s.handled;
      permits = set i (s.permits i - 1) s.permits;
    } in
    let own : (nat_eq i i && same_text c c) ≡ true = ground (arith, same_text_refl c) in
    let same = same_text_refl c in
    subst
      (λ (t : System).
        let done = finished i true c (take_out i c t.handled) t in
        (done.reserved ≡ s.reserved)
        × (done.handled ≡ s.handled)
        × ((j : ℕ) → done.permits j ≡ s.permits j))
      (sym (if-false (member c s.reserved) s taken free))
      (subst
        (λ found.
          let done = finished i true c found taken in
          (done.reserved ≡ s.reserved)
          × (done.handled ≡ s.handled)
          × ((j : ℕ) → done.permits j ≡ s.permits j))
        (sym (if-true (nat_eq i i && same_text c c) (some s.handled) _ own))
        (
          if-true (same_text c c) _ _ same ∙ without-free c s.reserved free,
          refl,
          λ j. ground (arith, some_left),
        ))
