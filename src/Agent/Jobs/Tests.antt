-- ===== src/Agent/Jobs/Tests.antt =====
-- Two workers and one call.
use aipanel.Base.{◌≡◌, refl, Text, codes, true, false, List, [], ◌∷◌, arith}
use aipanel.Base.Dict
use aipanel.Agent.Session.Config.{Value, text, Object, from_payload, is_true}
use aipanel.Agent.Jobs.{
  System, got_object, got_other, Step, pulls, finishes, runs_out, step, steps, supervise, finish,
  take_job, reserve_and_run,
}
use aipanel.Agent.Jobs.Exclusive.{IsExclusive, IsTimely, steps-IsExclusive}

abbrev show : Value → Text
show v = []

abbrev idle : System
idle = record { reserved = []; handled = []; permits = λ i. 2; crashed = λ i. false }

abbrev job : Object
job = ("call_id", text (codes "c1")) ∷ ("sip_socket_path", text (codes "/run/c1.sock")) ∷ []

-- Both pull the call, the first ends it while Redis is down, its reservation runs out, and the second pulls it again and crashes on a number.
abbrev day : List Step
day =
    pulls 0 true (got_object job)
    ∷ pulls 1 true (got_object job)
    ∷ finishes 0 false (codes "c1")
    ∷ runs_out (codes "c1")
    ∷ pulls 1 true (got_object job)
    ∷ pulls 1 true got_other
    ∷ []

day-IsTimely : IsTimely show day idle
unfolding step supervise finish take_job from_payload Dict.get is_true reserve_and_run
day-IsTimely = (tt, (tt, (tt, (refl, (tt, (tt, tt))))))

steps-IsExclusive_example : IsExclusive 2 (steps show day idle)
steps-IsExclusive_example =
    steps-IsExclusive show 2 day idle day-IsTimely (tt, tt, λ j. omega arith)

-- The call ends up with the second worker.
second : (steps show day idle).handled ≡ (1, codes "c1") ∷ []
unfolding steps step supervise finish take_job from_payload Dict.get is_true reserve_and_run
second = refl

-- A reservation that runs out while the call is being handled.
abbrev long_call : List Step
long_call =
    pulls 0 true (got_object job) ∷ runs_out (codes "c1") ∷ pulls 1 true (got_object job) ∷ []

twice : (steps show long_call idle).handled ≡ (1, codes "c1") ∷ (0, codes "c1") ∷ []
unfolding steps step supervise finish take_job from_payload Dict.get is_true reserve_and_run
twice = refl
