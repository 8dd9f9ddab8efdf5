-- ===== src/Agent/Recorder/Tests.antt =====
-- A recorded call.
use aipanel.Base.{◌≡◌, refl, List, [], ◌∷◌, some}
use aipanel.Agent.Recorder.{Said, caller, agent, hear, close, open_file, new, mix_sample}
use aipanel.Agent.Recorder.Mixing.{mixed}
use aipanel.Agent.Recorder.File.{side, close-mixed}
use aipanel.Base.{true, false}

-- The caller says one sample and a half, the agent two samples in two pieces.
abbrev call : List Said
call = caller (1 ∷ 0 ∷ 7 ∷ []) ∷ agent (2 ∷ []) ∷ agent (0 ∷ 3 ∷ 1 ∷ []) ∷ []

close-mixed_example :
    (close (hear call (open_file new))).wave ≡ some (mixed (side true call) (side false call))
close-mixed_example = close-mixed call

-- The loudest samples do not wrap around.
loud : mix_sample 65535 65535 ≡ 65535
unfolding mix_sample
loud = refl
