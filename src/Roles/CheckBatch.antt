-- ===== src/Roles/CheckBatch.antt =====
-- Which queries `check_batch` accepts.
use daphne.Common.{
  ◌↔◌, ◌≤◌, ◌<◌, ℕ, ◌+◌, ◌%◌, Bool, true, false, Option, none, some, if◌then◌else◌, [], ◌∷◌, List,
  In, ◌≡◌, refl, arith,
}
use daphne.Codec.Base.{Bytes}
use daphne.Errors.{DapError, Outcome, ok, err, panic, ◌>>=◌, ◌>>◌}
use daphne.Messages.Ids.{TaskId}
use daphne.Messages.Batch.{Interval, PartialBatchSelector, BatchSelector, Query, into_batch_sel}
use daphne.Task.{
  DapTaskConfig, DapGlobalConfig, DapQueryConfig, DapBatchBucket, is_valid_agg_param,
  batch_span_for_sel, bucket_for, u64_end,
}
use daphne.Task.Span.{batch_span-exact}
use daphne.Roles.{
  DapAggregator, abs_diff, interval_end, check_interval, check_boundaries, check_overlap,
  check_batch,
}

then_parts : (m k : Outcome (Unit {0})) → (m >> k) ≡ ok tt → (m ≡ ok tt) × (k ≡ ok tt)
then_parts (ok tt) k h = (refl, h)
then_parts (err e) k h = cc
then_parts panic k h = cc

answered_no :
    (answer : Outcome Bool) (e : DapError)
    → (◌>>=◌ {B = Unit {0}} answer (λ b. if b then err e else ok tt) ≡ ok tt) ↔ (answer ≡ ok false)
answered_no (ok true) e = (λ h. cc, λ h. cc)
answered_no (ok false) e = (λ h. refl, λ h. refl)
answered_no (err failure) e = (λ h. cc, λ h. cc)
answered_no panic e = (λ h. cc, λ h. cc)

answered_yes :
    (answer : Outcome Bool) (e : DapError)
    → (◌>>=◌ {B = Unit {0}} answer (λ b. if b then ok tt else err e) ≡ ok tt) ↔ (answer ≡ ok true)
answered_yes (ok true) e = (λ h. refl, λ h. refl)
answered_yes (ok false) e = (λ h. cc, λ h. cc)
answered_yes (err failure) e = (λ h. cc, λ h. cc)
answered_yes panic e = (λ h. cc, λ h. cc)

module _ (agg : DapAggregator) (t : DapTaskConfig) (g : DapGlobalConfig) (task_id : TaskId) where
  -- What makes an interval acceptable at the time `now`.
  abbrev pub IsAcceptableInterval : Interval → ℕ → Type 0
  IsAcceptableInterval i now =
      (0 < t.time_precision)
      × (i.start % t.time_precision ≡ 0)
      × (i.duration % t.time_precision ≡ 0)
      × (t.time_precision ≤ i.duration)
      × (i.duration ≤ g.max_batch_duration)
      × (abs_diff now i.start ≤ g.min_batch_interval_start)
      × (abs_diff now (interval_end i) ≤ g.max_batch_interval_end)

  check_interval_iff :
      (i : Interval) (now : ℕ)
      → (check_interval agg t g task_id i now ≡ ok tt) ↔ IsAcceptableInterval i now
  unfolding check_interval
  check_interval_iff i now = ground arith

  -- A query fits the task's query type; its interval is acceptable, or its batch exists.
  abbrev pub IsAcceptable : DapQueryConfig → Query → ℕ → Type 0
  IsAcceptable DapQueryConfig.time_interval (Query.time_interval i) now = IsAcceptableInterval i now
  IsAcceptable (DapQueryConfig.fixed_size _) Query.fixed_size_current_batch now = Unit
  IsAcceptable (DapQueryConfig.fixed_size _) (Query.fixed_size_by_batch_id batch_id) now =
      agg.batch_exists task_id batch_id ≡ ok true
  IsAcceptable _ _ now = ⊥

  -- The batch that the query names, if it names one, does not overlap with a collected batch.
  abbrev pub NoOverlap : Option BatchSelector → Type 0
  NoOverlap none = Unit
  NoOverlap (some batch_sel) = agg.is_batch_overlapping task_id batch_sel ≡ ok false

  check_overlap_iff :
      (sel : Option BatchSelector) → (check_overlap agg t g task_id sel ≡ ok tt) ↔ NoOverlap sel
  unfolding check_overlap
  check_overlap_iff none = (λ h. tt, λ h. refl)
  check_overlap_iff (some sel) = answered_no (agg.is_batch_overlapping task_id sel) _

  check_boundaries_iff :
      (config : DapQueryConfig) (query : Query) (now : ℕ)
      → (check_boundaries agg t g task_id config query now ≡ ok tt) ↔ IsAcceptable config query now
  unfolding check_boundaries
  check_boundaries_iff DapQueryConfig.time_interval (Query.time_interval i) now =
      check_interval_iff i now
  check_boundaries_iff DapQueryConfig.time_interval (Query.fixed_size_by_batch_id _) now =
      (λ h. cc, λ h. absurd h)
  check_boundaries_iff DapQueryConfig.time_interval Query.fixed_size_current_batch now =
      (λ h. cc, λ h. absurd h)
  check_boundaries_iff (DapQueryConfig.fixed_size _) (Query.time_interval i) now =
      (λ h. cc, λ h. absurd h)
  check_boundaries_iff (DapQueryConfig.fixed_size _) (Query.fixed_size_by_batch_id id) now =
      answered_yes (agg.batch_exists task_id id) _
  check_boundaries_iff (DapQueryConfig.fixed_size _) Query.fixed_size_current_batch now =
      (λ h. tt, λ h. refl)

  acceptable_interval :
      (config : DapQueryConfig) (i : Interval) (now : ℕ)
      → IsAcceptable config (Query.time_interval i) now
      → (config ≡ DapQueryConfig.time_interval) × IsAcceptableInterval i now
  acceptable_interval DapQueryConfig.time_interval i now h = (refl, h)
  acceptable_interval (DapQueryConfig.fixed_size _) i now h = absurd h

  -- `check_batch` accepts a query, at a time and with an aggregation parameter, exactly when the
  -- parameter is empty, the query is acceptable to the task (`IsAcceptable`) and the batch that it
  -- names does not overlap with a collected one.
  pub check_batch_iff :
      (query : Query) (agg_param : Bytes) (now : ℕ)
      → (check_batch agg t g task_id query agg_param now ≡ ok tt)
        ↔ ((agg_param ≡ []) × IsAcceptable t.query query now × NoOverlap (into_batch_sel query))
  unfolding check_batch is_valid_agg_param
  check_batch_iff query (b ∷ agg_param) now = (λ h. cc, λ h. cc)
  check_batch_iff query [] now = (
    λ h.
        let (bounds, overlap) = then_parts _ _ h in
        (
          refl,
          (check_boundaries_iff t.query query now).0 bounds,
          (check_overlap_iff (into_batch_sel query)).0 overlap,
        ),
    λ h.
        rw ((check_boundaries_iff t.query query now).1 h.1)
          ((check_overlap_iff (into_batch_sel query)).1 h.2),
  )

  -- If `check_batch` accepts a time-interval query whose interval ends before 2^64, then the task
  -- has time-interval queries, the interval is not empty, its batch does not overlap with a
  -- collected one, and its span is defined and has the bucket of a report, at any time and shard,
  -- exactly when the time lies in the interval and the shard is one of the task's.
  pub check_batch-span :
      (i : Interval) (agg_param : Bytes) (now time shard : ℕ)
      → i.start + i.duration < u64_end
      → check_batch agg t g task_id (Query.time_interval i) agg_param now ≡ ok tt
      → (t.query ≡ DapQueryConfig.time_interval)
        × (0 < i.duration)
        × (agg.is_batch_overlapping task_id (BatchSelector.time_interval i) ≡ ok false)
        × ((span : List DapBatchBucket) × (bucket : DapBatchBucket) × (batch_span_for_sel t
                (BatchSelector.time_interval i)
              ≡ ok span)
            × (bucket_for t PartialBatchSelector.time_interval time shard ≡ ok bucket)
            × (In bucket span ↔ (
                (i.start ≤ time)
                × (time < i.start + i.duration)
                × (shard < t.num_agg_span_shards))))
  unfolding into_batch_sel
  check_batch-span i agg_param now time shard fits accepted =
      let (empty, acceptable, overlap) =
        (check_batch_iff (Query.time_interval i) agg_param now).0 accepted in
      let (query, interval) = acceptable_interval t.query i now acceptable in
      (
        query,
        omega (arith, interval.0, interval.3),
        overlap,
        batch_span-exact t i time shard query interval.0 interval.1 interval.2 fits,
      )
