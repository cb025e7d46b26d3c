-- ===== src/Protocol/Job/Step.antt =====
-- One report of a job in both Aggregators: the Helper's transition and what the Leader makes of it.
use daphne.Common.{
  map, flatten, ℕ, suc, ◌^◌, ◌<◌, ◌≡◌, refl, sym, true, none, some, List, [], ◌∷◌, ◌++◌, length,
  append-nil, arith,
}
use daphne.Codec.Base as Codec
use daphne.Codec.Base.{Bytes}
use daphne.Codec.Prio.{Prio, PrioLaws}
use daphne.Codec.RoundTrip.{vector}
use daphne.Codec.Lengths.RoundTrip.{RoundTrips-u32_bytes}
use daphne.Errors.{ok}
use daphne.Messages.Ids.{ReportId}
use daphne.Messages.Batch.{PartialBatchSelector}
use daphne.Messages.Report.{ReportMetadata}
use daphne.Messages.Aggregation.{TransitionVar, continued, failed, vdaf_prep_error}
use daphne.Task.{DapTaskConfig, is_valid_part_batch_sel, u64_end}
use daphne.Share.{Field, Crypto, VdafAggregateShare}
use daphne.Share.Summary.{CryptoLaws, wrap}
use daphne.Span.Buckets.{bytes_eq_refl}
use daphne.Span.{bytes_eq, DapAggregateSpan}
use daphne.Protocol.Framing.{finish, encode_ping_pong_framed}
use daphne.Protocol.Framing.Exact.{frame_decodes}
use daphne.Protocol.Vdaf.{Vdaf, VdafResult, codec, vdaf, dap}
use daphne.Protocol.Report.{EarlyReportStateInitialized, initialized_metadata}
use daphne.Protocol.Job.{
  transition_var, process_report, prep_finished, add_if_new, AggregationJobReportState,
  leader_report, leader_frame, leader_finished,
}
use daphne.Protocol.Job.View.{Holds, Holds-add}

module _ {p : Prio} (codec_laws : PrioLaws p) where
  pub frame_written :
      (message : Bytes)
      → length message < 256 ^ 4
      → encode_ping_pong_framed p finish message ≡ Codec.ok (2 ∷ vector 4 message)
  unfolding encode_ping_pong_framed
  frame_written message h = (RoundTrips-u32_bytes codec_laws message h).appends.at (2 ∷ [])

module _ {c : Crypto} (v : Vdaf c) where
  -- A report as the Helper has initialized it, and the Leader's state for it.
  abbrev pub Job : Type 0
  Job = EarlyReportStateInitialized v × AggregationJobReportState v

  abbrev pub helper_of : Job → EarlyReportStateInitialized v
  helper_of job = job.0

  abbrev pub leader_of : Job → AggregationJobReportState v
  leader_of job = job.1

  abbrev pub finished :
      ReportMetadata → VdafResult (VdafAggregateShare c × Bytes) → List (ReportId × ℕ)
  finished metadata (VdafResult.ok r) = (metadata.id, metadata.time) ∷ []
  finished metadata (VdafResult.err e) = []

  -- The ID and time of a report that the Helper finishes.
  abbrev pub aggregated_by : Job → List (ReportId × ℕ)
  aggregated_by
        (EarlyReportStateInitialized.ready metadata _ (some leader_share) share state, leader) =
      finished metadata (v.prep_finish_from_shares state share leader_share)
  aggregated_by (EarlyReportStateInitialized.ready metadata _ none share state, leader) = []
  aggregated_by (EarlyReportStateInitialized.rejected metadata failure, leader) = []

  -- The reports that the Helper finishes, in their order.
  abbrev pub counted : List Job → List (ReportId × ℕ)
  counted jobs = flatten (map aggregated_by jobs)

  length-finished :
      (metadata : ReportMetadata) (r : VdafResult (VdafAggregateShare c × Bytes))
      → length (finished metadata r) < 2
  length-finished metadata (VdafResult.ok r) = omega arith
  length-finished metadata (VdafResult.err e) = omega arith

  pub length-aggregated_by : (job : Job) → length (aggregated_by job) < 2
  length-aggregated_by
        (EarlyReportStateInitialized.ready metadata public_share (some lp) share state, l) =
      length-finished metadata (v.prep_finish_from_shares state share lp)
  length-aggregated_by
        (EarlyReportStateInitialized.ready metadata public_share none share state, l) =
      omega arith
  length-aggregated_by (EarlyReportStateInitialized.rejected metadata failure, l) = omega arith

module _ {p : Prio} (codec_laws : PrioLaws p) {c : Crypto} (laws : CryptoLaws c) (v : Vdaf c)
    (f : Field) (n : ℕ) (t : DapTaskConfig) (sel : PartialBatchSelector) where
  -- What the Leader makes of the message of a Helper that has finished; both output shares are
  -- vectors of size `n` over the field `f`. A Helper that fails to finish has failed for the report.
  abbrev pub Finishes : VdafResult (VdafAggregateShare c × Bytes) → v.VdafPrepState → Type 0
  Finishes (VdafResult.ok (data', prep_msg)) leader_state =
      (helper_share leader_share : c.FieldShare f) × (data' ≡ wrap f helper_share)
      × (laws.size f helper_share ≡ n)
      × (length prep_msg < 256 ^ 4)
      × (v.prep_finish leader_state prep_msg ≡ VdafResult.ok (wrap f leader_share))
      × (laws.size f leader_share ≡ n)
  Finishes (VdafResult.err codec) leader_state = Unit
  Finishes (VdafResult.err vdaf) leader_state = Unit
  Finishes (VdafResult.err (dap e)) leader_state = ⊥

  -- A report of an honest job: both have the same ID and time, the Helper has the Leader's
  -- preparation share unless it has rejected the report, and where it finishes, so does the Leader.
  abbrev pub IsHonest : Job v → Type 0
  IsHonest (EarlyReportStateInitialized.ready metadata _ (some leader_share) share state, leader) =
      (metadata.id ≡ leader.report_id)
      × (metadata.time ≡ leader.time)
      × Finishes (v.prep_finish_from_shares state share leader_share) leader.prep_state
  IsHonest (EarlyReportStateInitialized.ready metadata _ none share state, leader) = ⊥
  IsHonest (EarlyReportStateInitialized.rejected metadata failure, leader) =
      metadata.id ≡ leader.report_id

  abbrev pub Held : DapAggregateSpan c → List (ReportId × ℕ) → Type 0
  Held = Holds laws f t sel n

  -- One report: the Helper's transition, and the Leader's step on it.
  abbrev pub Step : Job v → DapAggregateSpan c → DapAggregateSpan c → List (ReportId × ℕ) → Type 0
  Step (h, l) helper_span leader_span reports =
      (helper_span' : DapAggregateSpan c) × (leader_span' : DapAggregateSpan c)
      × (var : TransitionVar) × (transition_var p v t sel none h helper_span
          ≡ ok (helper_span', var))
      × (leader_report p v t sel l var leader_span ≡ ok leader_span')
      × Held helper_span' (reports ++ aggregated_by v (h, l))
      × Held leader_span' (reports ++ aggregated_by v (h, l))

  module _ (valid : is_valid_part_batch_sel t.query sel ≡ true) (pos : 0 < t.time_precision) where
    finish-Step :
        (metadata : ReportMetadata) (public_share : Bytes) (lp : Bytes) (share : v.VdafPrepShare)
        (state : v.VdafPrepState) (l : AggregationJobReportState v)
        (helper_span leader_span : DapAggregateSpan c) (reports : List (ReportId × ℕ))
        (r : VdafResult (VdafAggregateShare c × Bytes))
        → v.prep_finish_from_shares state share lp ≡ r
        → metadata.id ≡ l.report_id
        → metadata.time ≡ l.time
        → Finishes r l.prep_state
        → Held helper_span reports
        → Held leader_span reports
        → suc (length reports) < u64_end
        → Step
            (EarlyReportStateInitialized.ready metadata public_share (some lp) share state, l)
            helper_span
            leader_span
            reports
    unfolding transition_var process_report prep_finished add_if_new leader_report leader_frame
        leader_finished
    finish-Step metadata public_share lp share state l helper_span leader_span reports
          (VdafResult.ok (data', msg)) e ids times (hs, ls, out, size, short, finishes, size') hh hl
          fits =
        let (after, added, held) =
          Holds-add laws f t sel n helper_span reports metadata.id metadata.time hs valid pos hh
            size fits in
        let (after', added', held') =
          Holds-add laws f t sel n leader_span reports metadata.id metadata.time ls valid pos hl
            size' fits in
        (
          after,
          after',
          continued (2 ∷ vector 4 msg),
          rw (e, out, added, frame_written codec_laws msg short),
          rw (frame_decodes codec_laws finish msg short, finishes, sym ids, sym times, added'),
          rw e held,
          rw e held',
        )
    finish-Step metadata public_share lp share state l helper_span leader_span reports
          (VdafResult.err codec) e ids times fin hh hl fits =
        (
          helper_span,
          leader_span,
          failed vdaf_prep_error,
          rw e,
          refl,
          rw (e, append-nil reports) hh,
          rw (e, append-nil reports) hl,
        )
    finish-Step metadata public_share lp share state l helper_span leader_span reports
          (VdafResult.err vdaf) e ids times fin hh hl fits =
        (
          helper_span,
          leader_span,
          failed vdaf_prep_error,
          rw e,
          refl,
          rw (e, append-nil reports) hh,
          rw (e, append-nil reports) hl,
        )
    finish-Step metadata public_share lp share state l helper_span leader_span reports
          (VdafResult.err (dap e')) e ids times fin hh hl fits =
        elim fin [ ]

    pub job-Step :
        (job : Job v) (helper_span leader_span : DapAggregateSpan c) (reports : List (ReportId × ℕ))
        → IsHonest job
        → Held helper_span reports
        → Held leader_span reports
        → suc (length reports) < u64_end
        → Step job helper_span leader_span reports
    unfolding transition_var process_report leader_report
    job-Step (EarlyReportStateInitialized.ready metadata public_share (some lp) share state, l)
          helper_span leader_span reports (ids, times, fin) hh hl fits =
        finish-Step metadata public_share lp share state l helper_span leader_span reports
          (v.prep_finish_from_shares state share lp) refl ids times fin hh hl fits
    job-Step (EarlyReportStateInitialized.ready metadata public_share none share state, l)
          helper_span leader_span reports h hh hl fits =
        elim h [ ]
    job-Step (EarlyReportStateInitialized.rejected metadata failure, l) helper_span leader_span
          reports h hh hl fits =
        (
          helper_span,
          leader_span,
          failed failure,
          refl,
          refl,
          rw (append-nil reports) hh,
          rw (append-nil reports) hl,
        )

    pub same-id :
        (job : Job v)
        → IsHonest job
        → bytes_eq (initialized_metadata job.0).id job.1.report_id ≡ true
    same-id (EarlyReportStateInitialized.ready metadata public_share (some lp) share state, l) h =
        rw h.0 (bytes_eq_refl l.report_id)
    same-id (EarlyReportStateInitialized.ready metadata public_share none share state, l) h =
        elim h [ ]
    same-id (EarlyReportStateInitialized.rejected metadata failure, l) h =
        rw h (bytes_eq_refl l.report_id)
