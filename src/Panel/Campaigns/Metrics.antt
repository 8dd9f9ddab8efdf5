-- ===== src/Panel/Campaigns/Metrics.antt =====
-- What the metrics of panel/backend/src/aipanel/services/campaigns_service.py count.
use aipanel.Base.{
  ℕ, ◌-◌, ◌*◌, ◌≡◌, ◌≤◌, refl, ap, ◌∙◌, String, List, [], some, length, string_Key, nat_Key, arith,
}
use aipanel.Panel.Campaigns.{
  cross_join, Call, Tables, group_by_dispo, is_counted, counted, metrics_of, metrics_if, durations,
  fraction, CampaignMetrics, Campaign, get_campaign, metrics,
}
use aipanel.Panel.Campaigns.Found.{IsFound, Finds, counted-Finds}
use aipanel.Panel.Campaigns.Joined.{
  count_successes, sum_values, group-sizes, group-sizes_if, read_groups-successful, read_groups-sum,
  count-cross, length-cross, seconds, timed, durations_lem, seconds-cross, timed-cross,
}

-- What the metrics say of the calls that the query finds, `base`, in a table of calls.
abbrev pub Counts : List String → List Call → List Call → CampaignMetrics → Type 0
Counts dispos base calls m =
    (m.total_calls ≡ length base)
    × (m.successful_calls ≡ length base * count_successes dispos calls)
    × (sum_values m.by_dispo ≤ length base * length calls)
    × (m.conversion_rate ≡ fraction m.successful_calls (length base))
    × (m.avg_duration_sec ≡ fraction (length base * seconds calls) (length base * timed calls))

metrics_of-Counts :
    (dispos : List String) (base calls : List Call)
    → Counts dispos base calls (metrics_of dispos base calls)
metrics_of-Counts dispos base calls =
    let joined = cross_join base calls in
    let groups = group_by_dispo joined [] in
    (
      refl,
      omega (
        arith,
        read_groups-successful dispos groups [] 0,
        group-sizes_if dispos joined [],
        count-cross dispos base calls,
      ),
      omega (
        arith,
        read_groups-sum dispos groups [] 0,
        group-sizes joined [],
        length-cross base calls,
      ),
      refl,
      ap (λ n. fraction n (durations joined).1)
            ((durations_lem joined).0 ∙ seconds-cross base calls)
          ∙ ap (λ n. fraction (length base * seconds calls) n)
              ((durations_lem joined).1 ∙ timed-cross base calls),
    )

-- The metrics of a campaign of the tenant: all calls are those of the period,
-- of a deployment of the tenant and of the campaign, by themselves or by the deployment, and no others; the successful ones
-- are the calls of the whole table, of all tenants, that ended in one of the campaign's dispositions for
-- success, each counted as often as there are calls that the query finds; and the counts for each
-- disposition add up to no more than the calls of the table, counted as often. The rate is the one by the
-- other, and the mean duration is that of the calls of the whole table that have one; each is 0 of nothing.
pub metrics-Counts :
    (now tenant_id campaign_id period_days : ℕ) (t : Tables) (c : Campaign)
    → get_campaign tenant_id campaign_id t ≡ some c
    → let since = now - period_days * 86400 in
      let base = counted (is_counted tenant_id campaign_id since t.deployments) t.calls in
      (m : CampaignMetrics) × (metrics now tenant_id campaign_id period_days t ≡ some m)
      × Counts c.success_dispos base t.calls m
      × Finds (IsFound tenant_id campaign_id since t.deployments) base t.calls
unfolding metrics
metrics-Counts now tenant_id campaign_id period_days t c there =
    let test = is_counted tenant_id campaign_id (now - period_days * 86400) t.deployments in
    let base = counted test t.calls in
    (
      metrics_of c.success_dispos base t.calls,
      ap (metrics_if base t.calls) there,
      metrics_of-Counts c.success_dispos base t.calls,
      counted-Finds tenant_id campaign_id (now - period_days * 86400) t.deployments t.calls,
    )
