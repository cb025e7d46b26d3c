-- ===== src/Leader/Run/Collected.antt =====
-- The collection that a collection job leaves.
use daphne.Common.{
  ℕ, ◌+◌, ◌-◌, ◌%◌, ◌≤◌, ◌<◌, ◌≡◌, refl, ◌∙◌, ap, sym, Bool, true, false, Option, arith, leb,
  lt→ltb, if◌then◌else◌,
}
use daphne.Codec.Base.{Bytes, Writer}
use daphne.Codec.Prio.{Prio}
use daphne.Errors.{Outcome, ok, err, abort, invalid_batch_size}
use daphne.Messages.Ids.{TaskId, CollectionJobId}
use daphne.Messages.Batch.{Interval, BatchSelector}
use daphne.Messages.Report.{HpkeCiphertext}
use daphne.Task.{DapTaskConfig, u64_end, is_report_count_compatible}
use daphne.Task.Time.{quantized_times}
use daphne.Share.{Crypto, VdafAggregateShare, DapAggregateShare}
use daphne.Roles.Calls.{returns, call_parts, lift_parts}
use daphne.Protocol.Init.{DapAggregationParam}
use daphne.Protocol.AggShare.{HpkeEncrypter}
use daphne.Leader.Peer.{HelperPeer}
use daphne.Leader.Run.{JobStore, collection_interval, collection_of, collect_batch, run_coll_job}

-- The interval has the times, and begins and ends at multiples of the time precision.
abbrev pub Covers : DapTaskConfig → Interval → ℕ → ℕ → Type 0
Covers t i min_time max_time =
    (i.start ≤ min_time)
    × (max_time < i.start + i.duration)
    × (i.start % t.time_precision ≡ 0)
    × ((i.start + i.duration) % t.time_precision ≡ 0)

collection_interval-Covers :
    (t : DapTaskConfig) (min_time max_time : ℕ)
    → 0 < t.time_precision
    → min_time ≤ max_time
    → max_time + t.time_precision < u64_end
    → (i : Interval) × (collection_interval t min_time max_time ≡ ok i)
      × Covers t i min_time max_time
unfolding collection_interval
collection_interval-Covers t min_time max_time pos ordered fits =
    let (low, _, e, _, aligned, _, below, _, _, _) =
      quantized_times t min_time 0 pos (omega arith) in
    let (_, high, _, e', _, aligned', _, above, _, _) = quantized_times t max_time 0 pos fits in
    let apart : low < high = omega arith in
    let whole : low + (high - low) ≡ high = omega arith in
    (
      record { start = low; duration = high - low },
      rw (e, e', lt→ltb low high apart),
      (below, omega arith, aligned, rw whole aligned'),
    )

large_enough :
    (exceeds : Bool) (min_batch_size report_count : ℕ)
    → (if exceeds then err (abort invalid_batch_size) else ok (leb min_batch_size report_count))
      ≡ ok true
    → min_batch_size ≤ report_count
large_enough true min_batch_size report_count h = cc
large_enough false min_batch_size report_count h = ground arith

ok_unique : {A : Type 0} (m : Outcome A) (a b : A) → m ≡ ok a → m ≡ ok b → a ≡ b
ok_unique m a b e e' = cc

returned_parts :
    {A B : Type 0} (a b : A) (s s' : B)
    → ◌≡◌ {A = Outcome A × B} (ok a, s) (ok b, s')
    → (a ≡ b) × (s ≡ s')
returned_parts a b s s' h = (cc, cc)

compatible-le :
    (t : DapTaskConfig) (report_count : ℕ)
    → is_report_count_compatible t report_count ≡ ok true
    → t.min_batch_size ≤ report_count
unfolding is_report_count_compatible
compatible-le t report_count h = large_enough _ t.min_batch_size report_count h

module _ (p : Prio) {c : Crypto} (encode_agg_data : VdafAggregateShare c → Writer)
    (hpke_encrypt : HpkeEncrypter) {S Store Url : Type 0} (s : JobStore c Store)
    (peer : HelperPeer S Store Url)
    (resolve_taskprove_advertisement : DapTaskConfig → Outcome (Option Bytes)) (task_id : TaskId)
    (t : DapTaskConfig) (coll_job_id : CollectionJobId) (batch_sel : BatchSelector)
    (agg_param : DapAggregationParam) (store after : Store) (report_count : ℕ) where
  -- The calls that store a collection for the share and then mark the batch.
  abbrev pub IsFinished : DapAggregateShare c → Store → Type 0
  IsFinished agg_share end =
      (i : Interval) × (leader_sealed helper_sealed : HpkeCiphertext) × (before between : Store)
      × Covers t i agg_share.min_time agg_share.max_time
      × (s.finish_collect_job task_id coll_job_id
            (collection_of batch_sel agg_share i leader_sealed helper_sealed) before
          ≡ (ok tt, between))
      × (s.mark_collected task_id batch_sel between ≡ (ok tt, end))

  collect_batch-IsFinished :
      (taskprov : Option Bytes) (agg_share : DapAggregateShare c) (begin : Store)
      → 0 < t.time_precision
      → agg_share.min_time ≤ agg_share.max_time
      → agg_share.max_time + t.time_precision < u64_end
      → collect_batch p encode_agg_data hpke_encrypt s peer resolve_taskprove_advertisement task_id
          t coll_job_id batch_sel agg_param taskprov agg_share begin
        ≡ (ok report_count, after)
      → (report_count ≡ agg_share.report_count) × IsFinished agg_share after
  unfolding collect_batch
  collect_batch-IsFinished taskprov agg_share begin pos ordered fits h =
      let (leader_sealed, _, h1) = lift_parts _ _ begin report_count after h in
      let (_, _, h2) = lift_parts _ _ begin report_count after h1 in
      let (_, _, h3) = lift_parts _ _ begin report_count after h2 in
      let (_, before, _, h4) = call_parts _ _ report_count after h3 in
      let (resp, _, h5) = lift_parts _ _ before report_count after h4 in
      let (i, e, h6) = lift_parts _ _ before report_count after h5 in
      let (_, between, finished, h7) = call_parts _ _ report_count after h6 in
      let (_, last, marked, h8) = call_parts _ _ report_count after h7 in
      let (i', e', covers) =
        collection_interval-Covers t agg_share.min_time agg_share.max_time pos ordered fits in
      let same = ok_unique _ i' i e' e in
      let (counted, ended) = returned_parts _ _ _ _ h8 in
      (
        sym counted,
        (
          i,
          leader_sealed,
          resp.encrypted_agg_share,
          before,
          between,
          rw same at covers,
          finished,
          rw ended at marked,
        ),
      )

  -- What `run_coll_job` does once it knows whether the batch is large enough.
  decided-IsFinished :
      (compatible : Bool) (taskprov : Option Bytes) (agg_share : DapAggregateShare c)
      (begin : Store)
      → 0 < t.time_precision
      → agg_share.min_time ≤ agg_share.max_time
      → agg_share.max_time + t.time_precision < u64_end
      → 0 < report_count
      → (if compatible
            then collect_batch p encode_agg_data hpke_encrypt s peer resolve_taskprove_advertisement
                task_id t coll_job_id batch_sel agg_param taskprov agg_share
            else returns 0)
          begin
        ≡ (ok report_count, after)
      → (compatible ≡ true) × (report_count ≡ agg_share.report_count) × IsFinished agg_share after
  decided-IsFinished true taskprov agg_share begin pos ordered fits some_reports h =
      let (counted, finished) =
        collect_batch-IsFinished taskprov agg_share begin pos ordered fits h in
      (refl, counted, finished)
  decided-IsFinished false taskprov agg_share begin pos ordered fits some_reports h =
      let (none_counted, _) = returned_parts _ _ _ _ h in absurd (omega arith)

  -- A collection job that counts reports has left their collection. At a positive time precision, and
  -- for a batch whose times are ordered and end, with one time precision more, before 2^64: if
  -- run_coll_job returns a positive count, then the Leader's aggregate share has that many reports,
  -- which are at least as many as the minimum batch size; a collection has been stored for the job,
  -- with that count and an interval that contains the times of the share and begins and ends at
  -- multiples of the time precision; and behind that the batch has been marked as collected.
  pub run_coll_job-IsFinished :
      0 < t.time_precision
      → ((agg_share : DapAggregateShare c) (begin : Store)
          → s.get_agg_share task_id batch_sel store ≡ (ok agg_share, begin)
          → (agg_share.min_time ≤ agg_share.max_time)
            × (agg_share.max_time + t.time_precision < u64_end))
      → 0 < report_count
      → run_coll_job p encode_agg_data hpke_encrypt s peer resolve_taskprove_advertisement task_id t
          coll_job_id batch_sel agg_param store
        ≡ (ok report_count, after)
      → (agg_share : DapAggregateShare c) × (begin : Store) × (s.get_agg_share task_id batch_sel
            store
          ≡ (ok agg_share, begin))
        × (report_count ≡ agg_share.report_count)
        × (t.min_batch_size ≤ report_count)
        × IsFinished agg_share after
  unfolding run_coll_job
  run_coll_job-IsFinished pos times some_reports h =
      let (agg_share, begin, got, h1) = call_parts _ _ report_count after h in
      let (taskprov, _, h2) = lift_parts _ _ begin report_count after h1 in
      let (compatible, asked, h3) = lift_parts _ _ begin report_count after h2 in
      let (ordered, fits) = times agg_share begin got in
      let (large, counted, finished) =
        decided-IsFinished compatible taskprov agg_share begin pos ordered fits some_reports h3 in
      let enough = compatible-le t agg_share.report_count (asked ∙ ap ok large) in
      (agg_share, begin, got, counted, omega arith, finished)
