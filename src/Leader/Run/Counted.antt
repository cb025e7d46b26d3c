-- ===== src/Leader/Run/Counted.antt =====
-- What `run_agg_job` counts.
use daphne.Common.{ℕ, ◌+◌, ◌≡◌, refl, Bool-cases, inl, inr, [], ◌∷◌, ◌==◌, ==_iff}
use daphne.Errors.{ok}
use daphne.Messages.Ids.{TaskId}
use daphne.Task.{DapTaskConfig}
use daphne.Share.{Crypto}
use daphne.Span.{DapAggregateSpan}
use daphne.Helper.{MergeSpan, refused, already_collected}
use daphne.Leader.Run.{span_report_count, JobStore, count_refused, count_put, put_agg_span}

-- Every bucket has been refused as one that has been collected.
abbrev pub AreCollected : MergeSpan → Type 0
AreCollected [] = Unit
AreCollected ((bucket, result, reports) ∷ results) =
    (result ≡ refused already_collected) × AreCollected results

count_refused-collected :
    (results : MergeSpan) (replayed collected : ℕ)
    → AreCollected results
    → (counts : ℕ × ℕ) × (count_refused results replayed collected ≡ ok counts)
unfolding count_refused
count_refused-collected [] replayed collected h = ((replayed, collected), refl)
count_refused-collected ((bucket, result, reports) ∷ results) replayed collected h =
    rw h.0 (count_refused-collected results replayed (collected + 1) h.1)

-- The count that run_agg_job returns includes the reports that were refused. If the storage refuses
-- every bucket of the span as one that has been collected, so that no report of it is aggregated, then
-- the last part of run_agg_job still returns the number of all reports in the span.
pub put_agg_span-refused :
    {c : Crypto} {Store : Type 0} (s : JobStore c Store) (task_id : TaskId) (t : DapTaskConfig)
    (agg_span : DapAggregateSpan c) (store : Store)
    → AreCollected (s.try_put_agg_share_span task_id t agg_span store).0
    → (put_agg_span s task_id t agg_span store).0 ≡ ok (span_report_count agg_span)
unfolding put_agg_span count_put
put_agg_span-refused s task_id t agg_span store h =
    let (counts, e) =
      count_refused-collected (s.try_put_agg_share_span task_id t agg_span store).0 0 0 h in
    elim (Bool-cases (span_report_count agg_span == 0)) [
      | inl x ↦
          let zero_reports = (==_iff (span_report_count agg_span) 0).0 x in
          rw x (rw zero_reports refl)
      | inr x ↦ rw (x, e) refl
    ]
