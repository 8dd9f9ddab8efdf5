-- ===== src/Panel/Campaigns/Joined.antt =====
-- The groups, the sums and the counts over the joined rows of campaigns_service.metrics.
use aipanel.Base.{
  ◌++◌, length-append, ℕ, ◌+◌, ◌*◌, ◌≡◌, ◌≤◌, refl, ap, ◌∙◌, String, true, List, [], ◌∷◌, Option,
  none, some, is_some, length, if◌then◌else◌, if-true, if-false, either_way, ◌==◌, string_Key,
  nat_Key, eq_iff, arith, Bool-cases, inl, inr,
}
use aipanel.Base.Dict
use aipanel.Base.Dict.{Dict}
use aipanel.Panel.Campaigns.{
  cross_join, Call, Groups, same_dispo, add_to_group, group_by_dispo, dispo_key, is_success,
  successes, read_groups, durations, add_duration,
}

-- The calls that ended in one of the dispositions.
abbrev pub count_successes : List String → List Call → ℕ
count_successes dispos [] = 0
count_successes dispos (call ∷ calls) =
    (if is_success dispos call.dispo_code then 1 else 0) + count_successes dispos calls

abbrev pub sum_values : Dict String ℕ → ℕ
sum_values [] = 0
sum_values ((k, n) ∷ d) = n + sum_values d

-- The calls of all groups, and those of the groups that are successes.
abbrev sizes : Groups → ℕ
sizes [] = 0
sizes ((d, n) ∷ groups) = n + sizes groups

abbrev sizes_if : List String → Groups → ℕ
sizes_if dispos [] = 0
sizes_if dispos ((d, n) ∷ groups) = successes dispos d n + sizes_if dispos groups

same_dispo-eq : (e d : Option String) → same_dispo e d ≡ true → e ≡ d
same_dispo-eq none none h = refl
same_dispo-eq none (some b) h = cc
same_dispo-eq (some a) none h = cc
same_dispo-eq (some a) (some b) h =
    let same : a ≡ b = ground (arith, h, eq_iff a b) in ap (λ x. some x) same

sizes-add : (d : Option String) (groups : Groups) → sizes (add_to_group d groups) ≡ sizes groups + 1
unfolding add_to_group
sizes-add d [] = omega arith
sizes-add d ((e, n) ∷ groups) = ground (arith, sizes-add d groups)

sizes_if-add :
    (dispos : List String) (d : Option String) (groups : Groups)
    → sizes_if dispos (add_to_group d groups)
      ≡ sizes_if dispos groups + (if is_success dispos d then 1 else 0)
unfolding add_to_group
sizes_if-add dispos d [] = omega arith
sizes_if-add dispos d ((e, n) ∷ groups) = elim (Bool-cases (same_dispo e d)) [
  | inl this ↦
      let agree : is_success dispos e ≡ is_success dispos d =
        ap (is_success dispos) (same_dispo-eq e d this) in
      ap (sizes_if dispos) (if-true (same_dispo e d) _ _ this) ∙ ground (arith, agree)
  | inr other ↦
      ap (sizes_if dispos) (if-false (same_dispo e d) _ _ other)
      ∙ omega (arith, sizes_if-add dispos d groups)
]

pub group-sizes :
    (calls : List Call) (groups : Groups)
    → sizes (group_by_dispo calls groups) ≡ sizes groups + length calls
unfolding group_by_dispo
group-sizes [] groups = omega arith
group-sizes (call ∷ calls) groups = omega (
  arith,
  group-sizes calls (add_to_group call.dispo_code groups),
  sizes-add call.dispo_code groups,
)

pub group-sizes_if :
    (dispos : List String) (calls : List Call) (groups : Groups)
    → sizes_if dispos (group_by_dispo calls groups)
      ≡ sizes_if dispos groups + count_successes dispos calls
unfolding group_by_dispo
group-sizes_if dispos [] groups = omega arith
group-sizes_if dispos (call ∷ calls) groups = omega (
  arith,
  group-sizes_if dispos calls (add_to_group call.dispo_code groups),
  sizes_if-add dispos call.dispo_code groups,
)

sum-put : (k : String) (n : ℕ) (d : Dict String ℕ) → sum_values (Dict.put k n d) ≤ sum_values d + n
unfolding Dict.put
sum-put k n [] = omega arith
sum-put k n ((j, m) ∷ d) =
    either_way (λ (e : Dict String ℕ). sum_values e ≤ m + sum_values d + n) (j == k) ((j, n) ∷ d)
      ((j, m) ∷ Dict.put k n d) (omega arith) (omega (arith, sum-put k n d))

pub read_groups-successful :
    (dispos : List String) (groups : Groups) (by_dispo : Dict String ℕ) (successful : ℕ)
    → (read_groups dispos groups by_dispo successful).1 ≡ successful + sizes_if dispos groups
unfolding read_groups
read_groups-successful dispos [] by_dispo successful = omega arith
read_groups-successful dispos ((d, n) ∷ groups) by_dispo successful = omega (
  arith,
  read_groups-successful dispos groups (Dict.put (dispo_key d) n by_dispo)
      (successful + successes dispos d n),
)

pub read_groups-sum :
    (dispos : List String) (groups : Groups) (by_dispo : Dict String ℕ) (successful : ℕ)
    → sum_values (read_groups dispos groups by_dispo successful).0
      ≤ sum_values by_dispo + sizes groups
unfolding read_groups
read_groups-sum dispos [] by_dispo successful = omega arith
read_groups-sum dispos ((d, n) ∷ groups) by_dispo successful = omega (
  arith,
  read_groups-sum dispos groups (Dict.put (dispo_key d) n by_dispo)
      (successful + successes dispos d n),
  sum-put (dispo_key d) n by_dispo,
)

count-append :
    (dispos : List String) (xs ys : List Call)
    → count_successes dispos (xs ++ ys) ≡ count_successes dispos xs + count_successes dispos ys
count-append dispos [] ys = omega arith
count-append dispos (x ∷ xs) ys = omega (arith, count-append dispos xs ys)

pub count-cross :
    (dispos : List String) (base calls : List Call)
    → count_successes dispos (cross_join base calls) ≡ length base * count_successes dispos calls
count-cross dispos [] calls = omega arith
count-cross dispos (row ∷ base) calls =
    omega (arith, count-append dispos calls (cross_join base calls), count-cross dispos base calls)

pub length-cross :
    (base calls : List Call) → length (cross_join base calls) ≡ length base * length calls
length-cross [] calls = omega arith
length-cross (row ∷ base) calls =
    omega (arith, length-append calls (cross_join base calls), length-cross base calls)

-- The seconds of all calls that have a duration, and their number.
abbrev lasted : Option ℕ → ℕ
lasted none = 0
lasted (some d) = d

abbrev pub seconds : List Call → ℕ
seconds [] = 0
seconds (call ∷ calls) = lasted call.duration_sec + seconds calls

abbrev pub timed : List Call → ℕ
timed [] = 0
timed (call ∷ calls) = (if is_some call.duration_sec then 1 else 0) + timed calls

add_duration-lasted :
    (d : Option ℕ) (before : ℕ × ℕ)
    → ((add_duration d before).0 ≡ lasted d + before.0)
      × ((add_duration d before).1 ≡ (if is_some d then 1 else 0) + before.1)
add_duration-lasted none before = (omega arith, omega arith)
add_duration-lasted (some d) before = (omega arith, omega arith)

pub durations_lem :
    (calls : List Call)
    → ((durations calls).0 ≡ seconds calls) × ((durations calls).1 ≡ timed calls)
durations_lem [] = (refl, refl)
durations_lem (call ∷ calls) =
    let (sum, n) = durations_lem calls in
    let (adds, counts) = add_duration-lasted call.duration_sec (durations calls) in
    (omega (arith, sum, adds), omega (arith, n, counts))

seconds-append : (xs ys : List Call) → seconds (xs ++ ys) ≡ seconds xs + seconds ys
seconds-append [] ys = omega arith
seconds-append (x ∷ xs) ys = omega (arith, seconds-append xs ys)

timed-append : (xs ys : List Call) → timed (xs ++ ys) ≡ timed xs + timed ys
timed-append [] ys = omega arith
timed-append (x ∷ xs) ys = omega (arith, timed-append xs ys)

pub seconds-cross :
    (base calls : List Call) → seconds (cross_join base calls) ≡ length base * seconds calls
seconds-cross [] calls = omega arith
seconds-cross (row ∷ base) calls =
    omega (arith, seconds-append calls (cross_join base calls), seconds-cross base calls)

pub timed-cross :
    (base calls : List Call) → timed (cross_join base calls) ≡ length base * timed calls
timed-cross [] calls = omega arith
timed-cross (row ∷ base) calls =
    omega (arith, timed-append calls (cross_join base calls), timed-cross base calls)
