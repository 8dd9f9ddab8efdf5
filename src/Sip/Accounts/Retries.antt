-- ===== src/Sip/Accounts/Retries.antt =====
-- sip/src/aipanel_sip/account_manager.py: the delays between the attempts to register.
use aipanel.Base.{
  ℕ, zero, suc, ◌+◌, ◌-◌, ◌≤◌, ◌≡◌, refl, sym, ap, ◌∙◌, min, List, [], ◌∷◌, ◌++◌, some, map, length,
  length-append, append_assoc, append-nil, arith, nat_Key,
}
use aipanel.Base.Texts.{get_elem?}
use aipanel.Sip.Accounts.{PjAccount, Manager, schedule_retry, on_reg_state, inactive}

-- An account whose registration fails a number of times in a row.
fail_times : List ℕ → ℕ → ℕ → PjAccount → Manager → Manager
fail_times delays object zero acc m = m
fail_times delays object (suc n) acc m =
    fail_times delays object n (record acc { retry_idx = acc.retry_idx + 1 })
      (on_reg_state delays inactive object acc m)

-- The delays one after another, and then the last one again and again.
abbrev pub backoff : List ℕ → ℕ → ℕ → List ℕ
backoff delays last zero = []
backoff [] last (suc n) = last ∷ backoff [] last n
backoff (d ∷ delays) last (suc n) = d ∷ backoff delays last n

get_elem-append : (pre ds : List ℕ) (d : ℕ) → get_elem? (pre ++ d ∷ ds) (length pre) ≡ some d
get_elem-append [] ds d = refl
get_elem-append (p ∷ pre) ds d = ground (arith, get_elem-append pre ds d)

one_failure :
    (delays : List ℕ) (object delay : ℕ) (acc : PjAccount) (m : Manager)
    → get_elem? delays (min acc.retry_idx (length delays - 1)) ≡ some delay
    → let m' = on_reg_state delays inactive object acc m in
      (m'.timers ≡ m.timers ++ (object, delay) ∷ []) × (m'.failures ≡ m.failures + 1)
unfolding on_reg_state schedule_retry
one_failure delays object delay acc m e = ground (arith, e)

abbrev pub scheduled : ℕ → List ℕ → List (ℕ × ℕ)
scheduled object = map (λ delay. (object, delay))

step_timers :
    (delays rest : List ℕ) (object delay : ℕ) (acc : PjAccount) (m : Manager) (n : ℕ)
    → get_elem? delays (min acc.retry_idx (length delays - 1)) ≡ some delay
    → (fail_times delays object n
        (record acc { retry_idx = acc.retry_idx + 1 })
        (on_reg_state delays inactive object acc m)).timers
      ≡ (on_reg_state delays inactive object acc m).timers ++ scheduled object rest
    → (fail_times delays object (suc n) acc m).timers ≡ m.timers ++ scheduled object (delay ∷ rest)
unfolding fail_times
step_timers delays rest object delay acc m n e ih =
    ih
    ∙ ap (λ t. t ++ scheduled object rest) (one_failure delays object delay acc m e).0
    ∙ append_assoc m.timers ((object, delay) ∷ []) (scheduled object rest)

module _ (object last : ℕ) where
  last_again :
      (pre : List ℕ) (n : ℕ) (acc : PjAccount) (m : Manager)
      → length pre ≤ acc.retry_idx
      → (fail_times (pre ++ last ∷ []) object n acc m).timers
        ≡ m.timers ++ scheduled object (backoff [] last n)
  last_again pre zero acc m late = unfold fail_times in sym (append-nil m.timers)
  last_again pre (suc n) acc m late =
      let delays = pre ++ last ∷ [] in
      let at_last : min acc.retry_idx (length delays - 1) ≡ length pre =
        omega (arith, length-append pre (last ∷ [])) in
      step_timers delays (backoff [] last n) object last acc m n
        (ap (get_elem? delays) at_last ∙ get_elem-append pre [] last)
        (last_again pre n (record acc { retry_idx = acc.retry_idx + 1 })
          (on_reg_state delays inactive object acc m) (omega arith))

  from_there :
      (pre ds : List ℕ) (n : ℕ) (acc : PjAccount) (m : Manager)
      → acc.retry_idx ≡ length pre
      → (fail_times (pre ++ (ds ++ last ∷ [])) object n acc m).timers
        ≡ m.timers ++ scheduled object (backoff ds last n)
  from_there pre [] n acc m here = last_again pre n acc m (omega (arith, here))
  from_there pre (d ∷ ds) zero acc m here = unfold fail_times in sym (append-nil m.timers)
  from_there pre (d ∷ ds) (suc n) acc m here =
      let delays = pre ++ (d ∷ (ds ++ last ∷ [])) in
      let at : min acc.retry_idx (length delays - 1) ≡ length pre =
        omega
          (arith, here, length-append pre (d ∷ (ds ++ last ∷ [])), length-append ds (last ∷ [])) in
      let moved = append_assoc pre (d ∷ []) (ds ++ last ∷ []) in
      let next = record acc { retry_idx = acc.retry_idx + 1 } in
      step_timers delays (backoff ds last n) object d acc m n
        (ap (get_elem? delays) at ∙ get_elem-append pre (ds ++ last ∷ []) d)
        (ap
            (λ all.
              (fail_times all object n next (on_reg_state delays inactive object acc m)).timers)
            (sym moved)
          ∙ from_there (pre ++ d ∷ []) ds n next (on_reg_state delays inactive object acc m)
              (omega (arith, here, length-append pre (d ∷ []))))

  -- An account whose counter is at 0, as a success leaves it, and whose registration then fails n
  -- times in a row: the retries are scheduled after the delays of the settings one by one, and after
  -- the last of them again and again.
  fail_times-backoff :
      (ds : List ℕ) (n : ℕ) (acc : PjAccount) (m : Manager)
      → acc.retry_idx ≡ 0
      → (fail_times (ds ++ last ∷ []) object n acc m).timers
        ≡ m.timers ++ scheduled object (backoff ds last n)
  fail_times-backoff ds n acc m fresh = from_there [] ds n acc m fresh
