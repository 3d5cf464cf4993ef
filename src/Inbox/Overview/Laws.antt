-- ===== src/Inbox/Overview/Laws.antt =====
-- The metrics of the overview count what the tabs of the activity table show.
use lesspaper_ngl.Inbox.Overview.{
  ActivityTab, OverviewMetrics, compute_overview_metrics, count_overview, count_status,
  filter_by_activity_tab, in_date_range,
}
use lesspaper_ngl.Prelude.{
  List, Option, String, [], arith, filter, is_some, length, not, ℕ, ◌+◌, ◌∷◌, ◌≡◌,
}
use lesspaper_ngl.Types.Document.{Document}

record IsCounted (docs : List Document) (m n : OverviewMetrics) : Type 0 where
  processed : n.processed ≡ m.processed + length (filter_by_activity_tab docs ActivityTab.processed)
  failed : n.failed ≡ m.failed + length (filter_by_activity_tab docs ActivityTab.failed)
  total : n.total_ingested ≡ m.total_ingested
  parts :
      n.processed
        + n.failed
        + n.processing
        + length (filter (λ d. not (is_some d.inbox_status)) docs)
      ≡ m.processed + m.failed + m.processing + length docs

count_status-IsCounted :
    (d : Document) (m : OverviewMetrics) → IsCounted (d ∷ []) m (count_status d m)
unfolding count_status filter_by_activity_tab
count_status-IsCounted d m = ground arith

count_overview-IsCounted :
    (docs : List Document) (m : OverviewMetrics) → IsCounted docs m (count_overview docs m)
unfolding count_overview filter_by_activity_tab
count_overview-IsCounted [] m = ground arith
count_overview-IsCounted (d ∷ docs) m =
    ground (arith, count_overview-IsCounted docs (count_status d m), count_status-IsCounted d m)

module _ (parse_date : String → Option ℕ) (day_start : ℕ → ℕ → ℕ) where
  -- Over the documents in the range, the processed and failed counts are the lengths of the tabs of
  -- those names, and the three counts add up to the documents that have a status of the inbox.
  compute_overview_metrics-tabs :
      (docs : List Document) (days now : ℕ)
      → let in_range = filter (λ d. in_date_range parse_date day_start d days now) docs in
        let m = compute_overview_metrics parse_date day_start docs days now in
        (m.processed ≡ length (filter_by_activity_tab in_range ActivityTab.processed))
        × (m.failed ≡ length (filter_by_activity_tab in_range ActivityTab.failed))
        × (m.total_ingested ≡ length in_range)
        × (m.processed
              + m.failed
              + m.processing
              + length (filter (λ d. not (is_some d.inbox_status)) in_range)
            ≡ m.total_ingested)
  unfolding compute_overview_metrics
  compute_overview_metrics-tabs docs days now =
      let in_range = filter (λ d. in_date_range parse_date day_start d days now) docs in
      let c =
        count_overview-IsCounted in_range (record {
          processed = 0;
          failed = 0;
          processing = 0;
          total_ingested = length in_range;
        }) in
      (
        omega (arith, c.processed),
        omega (arith, c.failed),
        c.total,
        omega (arith, c.parts, c.total),
      )
