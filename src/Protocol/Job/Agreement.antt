-- ===== src/Protocol/Job/Agreement.antt =====
-- The two Aggregators of a job, one after the other: the Helper's response and what the Leader makes
-- of it.
use daphne.Common.{
  ℕ, ◌<◌, ◌≡◌, refl, sym, true, List, [], ◌∷◌, ◌++◌, length, append-nil, length-append,
  append_assoc, map, All, ◌+◌, arith,
}
use daphne.Codec.Prio.{Prio, PrioLaws}
use daphne.Errors.{ok}
use daphne.Messages.Ids.{ReportId}
use daphne.Messages.Batch.{PartialBatchSelector}
use daphne.Task.{DapTaskConfig, is_valid_part_batch_sel, u64_end}
use daphne.Share.{Field, Crypto}
use daphne.Share.Summary.{CryptoLaws}
use daphne.Span.{get, DapAggregateSpan}
use daphne.Protocol.Vdaf.{Vdaf}
use daphne.Protocol.Report.{initialized_metadata}
use daphne.Protocol.Job.{
  transitions_from, consume_from, status_of, produce_agg_job_resp, consume_agg_job_resp,
}
use daphne.Protocol.Job.View.{view, view_of, ids_in, Holds-view}
use daphne.Protocol.Job.Step.{
  counted, Job, IsHonest, aggregated_by, Held, job-Step, same-id, helper_of, leader_of,
  length-aggregated_by,
}
use daphne.Messages.Aggregation.{Transition, AggregationJobResp}
use daphne.Task.{DapBatchBucket}
use daphne.Common.{==_iff, ◌==◌, length-map, ◌∙◌}

module _ {p : Prio} (codec_laws : PrioLaws p) {c : Crypto} (laws : CryptoLaws c) (v : Vdaf c)
    (f : Field) (n : ℕ) (t : DapTaskConfig) (sel : PartialBatchSelector)
    (valid : is_valid_part_batch_sel t.query sel ≡ true) (pos : 0 < t.time_precision) where
  abbrev Reports : Type 0
  Reports = List (ReportId × ℕ)

  abbrev IsHonestJob : Job v → Type 0
  IsHonestJob = IsHonest codec_laws laws v f n t sel

  jobs-steps :
      (jobs : List (Job v)) (a b : DapAggregateSpan c) (reports : Reports)
      → All IsHonestJob jobs
      → Held codec_laws laws v f n t sel a reports
      → Held codec_laws laws v f n t sel b reports
      → length reports + length jobs < u64_end
      → (a' : DapAggregateSpan c) × (b' : DapAggregateSpan c) × (transitions : List Transition)
        × (transitions_from p v t sel [] (map (helper_of v) jobs) a ≡ ok (a', transitions))
        × (consume_from p v t sel transitions (map (leader_of v) jobs) b ≡ ok b')
        × (length transitions ≡ length jobs)
        × Held codec_laws laws v f n t sel a' (reports ++ counted v jobs)
        × Held codec_laws laws v f n t sel b' (reports ++ counted v jobs)
  unfolding transitions_from consume_from status_of
  jobs-steps [] a b reports h ha hb fits =
      (a, b, [], refl, refl, refl, rw (append-nil reports) ha, rw (append-nil reports) hb)
  jobs-steps (job ∷ jobs) a b reports (h, hs) ha hb fits =
      let ids = aggregated_by v job in
      let (a', b', var, e, e', ha', hb') =
        job-Step codec_laws laws v f n t sel valid pos job a b reports h ha hb (omega arith) in
      let few = length-aggregated_by v job in
      let (a'', b'', transitions, es, es', len, ha'', hb'') =
        jobs-steps jobs a' b' (reports ++ ids) hs ha' hb'
          (omega (arith, fits, length-append reports ids, few)) in
      let regroup = append_assoc reports ids (counted v jobs) in
      (
        a'',
        b'',
        record { report_id = (initialized_metadata job.0).id; var = var } ∷ transitions,
        rw (e, es),
        rw (same-id codec_laws laws v f n t sel valid pos job h, e', es'),
        omega (arith, len),
        rw (sym regroup) ha'',
        rw (sym regroup) hb'',
      )

  -- For every codec with the laws of `PrioLaws` and shares with the laws of `CryptoLaws`, in a task
  -- with a positive time precision and a fitting batch selector, and for less than 2^64 reports that
  -- are all honest in the sense of `IsHonest`: the Helper, who knows no report yet, produces a
  -- response, the Leader accepts it, and for every batch bucket both spans have the same report
  -- count, times, checksum and reports, which are those of the reports in the bucket that the Helper
  -- finishes, in the order of the job.
  pub agg_job-agreement :
      (jobs : List (Job v))
      → All IsHonestJob jobs
      → length jobs < u64_end
      → (helper_span : DapAggregateSpan c) × (leader_span : DapAggregateSpan c)
        × (resp : AggregationJobResp) × (produce_agg_job_resp p v t sel [] (map (helper_of v) jobs)
            ≡ ok (helper_span, resp))
        × (consume_agg_job_resp p v t
              (record { seq = map (leader_of v) jobs; part_batch_sel = sel })
              resp
            ≡ ok leader_span)
        × ((k : DapBatchBucket)
            → (view (get helper_span k)
                ≡ view_of c.sha256 (ids_in t sel c.sha256 k (counted v jobs)))
              × (view (get leader_span k)
                  ≡ view_of c.sha256 (ids_in t sel c.sha256 k (counted v jobs))))
  unfolding produce_agg_job_resp consume_agg_job_resp get
  agg_job-agreement jobs h fits =
      let empty : Held codec_laws laws v f n t sel [] [] = ([], (λ k. refl), tt, refl) in
      let (a, b, transitions, e, e', len, ha, hb) =
        jobs-steps jobs [] [] [] h empty empty (omega arith) in
      let seq = map (leader_of v) jobs in
      let same : (length transitions == length seq) ≡ true =
        (==_iff (length transitions) (length seq)).1 (len ∙ sym (length-map (leader_of v) jobs)) in
      (
        a,
        b,
        record { transitions = transitions },
        rw e,
        rw (same, e'),
        λ k. (
          Holds-view laws f t sel n a (counted v jobs) k ha,
          Holds-view laws f t sel n b (counted v jobs) k hb,
        ),
      )
