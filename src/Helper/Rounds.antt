-- ===== src/Helper/Rounds.antt =====
-- The rounds of the Helper: what it answers is committed, and when it answers.
use mathlib.Core.Path.{subst}
use daphne.Common.{
  Bool, ◌≡◌, refl, inl, inr, true, false, Option, none, some, List, [], ◌∷◌, All, ℕ, zero, suc,
}
use daphne.Codec.Prio.{Prio}
use daphne.Errors.{Outcome, ok, err, panic, Returns}
use daphne.Messages.Ids.{TaskId, ReportId}
use daphne.Messages.Batch.{PartialBatchSelector}
use daphne.Messages.Aggregation.{TransitionVar, continued, failed, Transition, AggregationJobResp}
use daphne.Task.{DapTaskConfig}
use daphne.Share.{Crypto}
use daphne.Span.{DapAggregateSpan}
use daphne.Span.Reports.{InSpan}
use daphne.Protocol.Vdaf.{Vdaf}
use daphne.Protocol.Report.{EarlyReportStateInitialized}
use daphne.Protocol.Job.{
  ReportProcessedStatus, aggregated, rejected, ReportStatus, status_of, produce_agg_job_resp,
}
use daphne.Protocol.Job.Justified.{IsJustified, AllJustified, produce_agg_job_resp-AllJustified}
use daphne.Helper.{
  MergeSpan, AggregateStore, record_results, end_of_round, one_round, rounds,
  finish_agg_job_and_aggregate,
}
use daphne.Helper.Committed.{InResults, StoreLaws, InMerged, Recorded, record_results-Recorded}

module _ (p : Prio) {c : Crypto} (v : Vdaf c) {s : AggregateStore c} (laws : StoreLaws s)
    (task_id : TaskId) (t : DapTaskConfig) (sel : PartialBatchSelector)
    (reports : List (EarlyReportStateInitialized v)) where
  -- A transition that continues is of a committed report.
  abbrev pub CommittedIf : s.Store → ReportId → TransitionVar → Type 0
  CommittedIf store id (continued message) = laws.IsCommitted store id
  CommittedIf store id (failed failure) = Unit

  abbrev pub AllCommitted : s.Store → List Transition → Type 0
  AllCommitted store = All (λ x. CommittedIf store x.report_id x.var)

  abbrev Good : Outcome AggregationJobResp × s.Store → Type 0
  Good (ok resp, store) = AllCommitted store resp.transitions
  Good (err e, store) = Unit
  Good (panic, store) = Unit

  abbrev Known : ReportStatus → s.Store → Type 0
  Known report_status store =
      (id : ReportId) → status_of report_status id ≡ some aggregated → laws.IsCommitted store id

  justified-committed :
      (store : s.Store) (span : DapAggregateSpan c) (id : ReportId)
      (status : Option ReportProcessedStatus) (var : TransitionVar)
      → ((i : ReportId) → InSpan i span → laws.IsCommitted store i)
      → (status ≡ some aggregated → laws.IsCommitted store id)
      → IsJustified status id span var
      → CommittedIf store id var
  justified-committed store span id (some (rejected failure)) (continued message) put known h = cc
  justified-committed store span id (some aggregated) (continued message) put known h = known refl
  justified-committed store span id none (continued message) put known h = put id h
  justified-committed store span id (some (rejected failure)) (failed f) put known h = tt
  justified-committed store span id (some aggregated) (failed f) put known h = tt
  justified-committed store span id none (failed f) put known h = tt

  all-committed :
      (store : s.Store) (span : DapAggregateSpan c) (report_status : ReportStatus)
      (transitions : List Transition)
      → ((i : ReportId) → InSpan i span → laws.IsCommitted store i)
      → Known report_status store
      → AllJustified report_status span transitions
      → AllCommitted store transitions
  all-committed store span report_status [] put known h = tt
  all-committed store span report_status (x ∷ xs) put known (h, hs) = (
    justified-committed store span x.report_id (status_of report_status x.report_id) x.var put
        (known x.report_id) h,
    all-committed store span report_status xs put known hs,
  )

  end_of_round-Good :
      (resp : AggregationJobResp) (again : ReportStatus → Outcome AggregationJobResp × s.Store)
      (report_status : ReportStatus) (results : MergeSpan) (span : DapAggregateSpan c)
      (before store : s.Store) (recorded : Outcome (ReportStatus × Bool))
      → Returns (Recorded results report_status false) recorded
      → ((id : ReportId) → InSpan id span → InResults id results)
      → ((id : ReportId) → InMerged id results → laws.IsCommitted store id)
      → ((id : ReportId) → laws.IsCommitted before id → laws.IsCommitted store id)
      → Known report_status before
      → AllJustified report_status span resp.transitions
      → ((report_status' : ReportStatus) → Known report_status' store → Good (again report_status'))
      → Good (end_of_round p v s task_id t sel reports resp again store recorded)
  unfolding end_of_round
  end_of_round-Good resp again report_status results span before store (ok (r, false)) (a, b, d)
        covers commits keeps known just next =
      all-committed store span report_status resp.transitions
        (λ i h. commits i (b refl i (covers i h))) (λ i h. keeps i (known i h)) just
  end_of_round-Good resp again report_status results span before store (ok (r, true)) (a, b, d)
        covers commits keeps known just next =
      next r
        (λ id h. elim (d id h) [ inl old ↦ keeps id (known id old) | inr new ↦ commits id new ])
  end_of_round-Good resp again report_status results span before store (err e) h covers commits
        keeps known just next =
      tt
  end_of_round-Good resp again report_status results span before store panic h covers commits keeps
        known just next =
      tt

  one_round-Good :
      (report_status : ReportStatus)
      (rest : ReportStatus → s.Store → Outcome AggregationJobResp × s.Store) (store : s.Store)
      (produced : Outcome (DapAggregateSpan c × AggregationJobResp))
      → Returns (λ x. AllJustified report_status x.0 x.1.transitions) produced
      → Known report_status store
      → ((report_status' : ReportStatus) (store' : s.Store)
          → Known report_status' store'
          → Good (rest report_status' store'))
      → Good (one_round p v s task_id t sel reports report_status rest store produced)
  unfolding one_round
  one_round-Good report_status rest store (ok (span, resp)) just known next =
      let put = s.try_put_agg_share_span task_id t span store in
      end_of_round-Good resp (λ report_status'. rest report_status' put.1) report_status put.0 span
        store put.1 (record_results put.0 report_status false)
        (record_results-Recorded put.0 report_status false) (laws.covers task_id t span store)
        (laws.commits task_id t span store) (laws.keeps task_id t span store) known just
        (λ report_status' h. next report_status' put.1 h)
  one_round-Good report_status rest store (err e) just known next = tt
  one_round-Good report_status rest store panic just known next = tt

  rounds-Good :
      (n : ℕ) (report_status : ReportStatus) (store : s.Store)
      → Known report_status store
      → Good (rounds p v s task_id t sel reports n report_status store)
  unfolding rounds
  rounds-Good zero report_status store known = tt
  rounds-Good (suc n) report_status store known =
      one_round-Good report_status (rounds p v s task_id t sel reports n) store
        (produce_agg_job_resp p v t sel report_status reports)
        (produce_agg_job_resp-AllJustified p v t sel report_status reports) known
        (λ report_status' store' h. rounds-Good n report_status' store' h)

  -- If the storage behaves as documented (`StoreLaws`), then whenever the Helper returns a response,
  -- after whatever replays and retries, every report that continues in it is committed in the storage that
  -- the Helper leaves.
  pub finish_agg_job_and_aggregate-committed :
      (store : s.Store) (resp : AggregationJobResp) (store' : s.Store)
      → finish_agg_job_and_aggregate p v s task_id t sel reports store ≡ (ok resp, store')
      → AllCommitted store' resp.transitions
  unfolding finish_agg_job_and_aggregate status_of
  finish_agg_job_and_aggregate-committed store resp store' h =
      subst Good h (rounds-Good 3 [] store (λ id no. cc))
