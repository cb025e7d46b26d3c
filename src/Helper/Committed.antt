-- ===== src/Helper/Committed.antt =====
-- What the Helper answers and what its storage has committed.
use daphne.Common.{
  ◌≡◌, sym, ◌⊎◌, inl, inr, Bool, true, false, Bool-cases, some, List, [], ◌∷◌, In, map,
}
use daphne.Errors.{Returns, Returns-weaken}
use daphne.Messages.Ids.{TaskId, ReportId}
use daphne.Messages.Aggregation.{TransitionFailure, report_replayed, batch_collected}
use daphne.Task.{DapTaskConfig}
use daphne.Share.{Crypto}
use daphne.Span.{bytes_eq, DapAggregateSpan}
use daphne.Span.Buckets.{bytes_eq_sound}
use daphne.Span.Reports.{InSpan}
use daphne.Protocol.Job.{ReportProcessedStatus, aggregated, rejected, ReportStatus, status_of}
use daphne.Helper.{
  merged, refused, already_collected, replays_detected, other, MergeSpan, AggregateStore,
  report_id_of, mark, record_results,
}

-- The report is in the results of some bucket.
abbrev pub InResults : ReportId → MergeSpan → Type 0
InResults id [] = ⊥
InResults id ((bucket, result, reports) ∷ results) =
    In id (map report_id_of reports) ⊎ InResults id results

-- The report is in a bucket without an error.
abbrev pub InMerged : ReportId → MergeSpan → Type 0
InMerged id [] = ⊥
InMerged id ((bucket, merged, reports) ∷ results) =
    In id (map report_id_of reports) ⊎ InMerged id results
InMerged id ((bucket, refused e, reports) ∷ results) = InMerged id results

-- The documented behaviour of the storage: the results have the buckets and the reports of the
-- span, a report of a bucket without an error is committed, and what is committed stays so.
pub record StoreLaws {c : Crypto} (s : AggregateStore c) : Type 1 where
  pub IsCommitted : s.Store → ReportId → Type 0
  pub covers :
      (task_id : TaskId) (t : DapTaskConfig) (span : DapAggregateSpan c) (store : s.Store)
      (id : ReportId)
      → InSpan id span
      → InResults id (s.try_put_agg_share_span task_id t span store).0
  pub commits :
      (task_id : TaskId) (t : DapTaskConfig) (span : DapAggregateSpan c) (store : s.Store)
      (id : ReportId)
      → InMerged id (s.try_put_agg_share_span task_id t span store).0
      → IsCommitted (s.try_put_agg_share_span task_id t span store).1 id
  pub keeps :
      (task_id : TaskId) (t : DapTaskConfig) (span : DapAggregateSpan c) (store : s.Store)
      (id : ReportId)
      → IsCommitted store id
      → IsCommitted (s.try_put_agg_share_span task_id t span store).1 id

pub status_of-mark :
    (status x : ReportProcessedStatus) (ids : List ReportId) (report_status : ReportStatus)
    (id : ReportId)
    → status_of (mark status ids report_status) id ≡ some x
    → ((x ≡ status) × In id ids) ⊎ (status_of report_status id ≡ some x)
unfolding mark status_of
status_of-mark status x [] report_status id h = inr h
status_of-mark status x (i ∷ ids) report_status id h =
    elim (status_of-mark status x ids ((i, status) ∷ report_status) id h) [
      | inl (e, there) ↦ inl (e, inr there)
      | inr h' ↦ elim (Bool-cases (bytes_eq i id)) [
        | inl same ↦
            let h'' = rw same at h' in
            let e : x ≡ status = cc in inl (e, inl (sym (bytes_eq_sound i id same)))
        | inr other' ↦ inr (rw other' at h')
      ]
    ]

-- What is recorded: a restart unless every bucket is without an error, and a report is only marked
-- as aggregated if it was before or is in a bucket without an error.
abbrev pub Recorded : MergeSpan → ReportStatus → Bool → ReportStatus × Bool → Type 0
Recorded results report_status restart r =
    (r.1 ≡ false → restart ≡ false)
    × (r.1 ≡ false → (id : ReportId) → InResults id results → InMerged id results)
    × ((id : ReportId)
        → status_of r.0 id ≡ some aggregated
        → (status_of report_status id ≡ some aggregated) ⊎ InMerged id results)

marked_rejected :
    (failure : TransitionFailure) (ids : List ReportId) (report_status : ReportStatus)
    (id : ReportId)
    → status_of (mark (rejected failure) ids report_status) id ≡ some aggregated
    → status_of report_status id ≡ some aggregated
marked_rejected failure ids report_status id h =
    elim (status_of-mark (rejected failure) aggregated ids report_status id h) [
      | inl (e, there) ↦ cc
      | inr h' ↦ h'
    ]

pub record_results-Recorded :
    (results : MergeSpan) (report_status : ReportStatus) (restart : Bool)
    → Returns
        (Recorded results report_status restart)
        (record_results results report_status restart)
unfolding record_results
record_results-Recorded [] report_status restart = (λ h. h, λ h id there. there, λ id h. inl h)
record_results-Recorded ((bucket, merged, reports) ∷ results) report_status restart =
    let ids = map report_id_of reports in
    Returns-weaken (Recorded results (mark aggregated ids report_status) restart) _ _
      (record_results-Recorded results (mark aggregated ids report_status) restart)
      (λ r h.
        let (a, b, d) = h in
        (
          a,
          λ e id there. elim there [ inl x ↦ inl x | inr y ↦ inr (b e id y) ],
          λ id e. elim (d id e) [
            | inl before ↦ elim (status_of-mark aggregated aggregated ids report_status id before) [
              | inl (e', there) ↦ inr (inl there)
              | inr h' ↦ inl h'
            ]
            | inr after ↦ inr (inr after)
          ],
        ))
record_results-Recorded ((bucket, refused (replays_detected replays), reports) ∷ results)
      report_status restart =
    Returns-weaken (Recorded results (mark (rejected report_replayed) replays report_status) true) _
      _
      (record_results-Recorded results (mark (rejected report_replayed) replays report_status) true)
      (λ r h.
        let (a, b, d) = h in
        (
          λ e. let no = a e in cc,
          λ e id there. let no = a e in cc,
          λ id e. elim (d id e) [
            | inl before ↦ inl (marked_rejected report_replayed replays report_status id before)
            | inr after ↦ inr after
          ],
        ))
record_results-Recorded ((bucket, refused already_collected, reports) ∷ results) report_status
      restart =
    let ids = map report_id_of reports in
    Returns-weaken (Recorded results (mark (rejected batch_collected) ids report_status) true) _ _
      (record_results-Recorded results (mark (rejected batch_collected) ids report_status) true)
      (λ r h.
        let (a, b, d) = h in
        (
          λ e. let no = a e in cc,
          λ e id there. let no = a e in cc,
          λ id e. elim (d id e) [
            | inl before ↦ inl (marked_rejected batch_collected ids report_status id before)
            | inr after ↦ inr after
          ],
        ))
record_results-Recorded ((bucket, refused (other e), reports) ∷ results) report_status restart = tt
