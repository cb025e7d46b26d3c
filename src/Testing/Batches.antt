-- ===== src/Testing/Batches.antt =====
-- The batches of the storage in memory (`is_batch_overlapping`, `get_agg_share` and `mark_collected`
-- of `InMemoryAggregator` in crates/daphne/src/testing/mod.rs), behind the look-up of the task.
pub mod Closed
pub mod Collected
use daphne.Common.{Bool, true, false, List, [], ◌∷◌, if◌then◌else◌}
use daphne.Errors.{Outcome, ok, err, panic, abort, batch_overlap}
use daphne.Messages.Ids.{TaskId}
use daphne.Messages.Batch.{BatchSelector}
use daphne.Task.{DapTaskConfig, DapBatchBucket, batch_span_for_sel}
use daphne.Share.{Crypto, DapAggregateShare, reset, merge}
use daphne.Testing.{AggregateStore, InMemoryAggregateStore, for_bucket}

module _ {c : Crypto} where
  abbrev pub is_collected : AggregateStore c → Bool × AggregateStore c
  is_collected entry = (entry.collected, entry)

  abbrev pub set_collected : AggregateStore c → Bool × AggregateStore c
  set_collected entry =
      (true, record { agg_share = entry.agg_share; collected = true; reports = entry.reports })

  -- The loop over the buckets, up to the first that has been collected.
  unfoldable pub overlapping_in :
      TaskId → List DapBatchBucket → InMemoryAggregateStore c → Bool × InMemoryAggregateStore c
  overlapping_in task_id [] store = (false, store)
  overlapping_in task_id (bucket ∷ buckets) store =
      let r = for_bucket task_id bucket is_collected store in
      let rest = overlapping_in task_id buckets r.1 in if r.0 then (true, r.1) else rest

  overlapping :
      TaskId
      → InMemoryAggregateStore c
      → Outcome (List DapBatchBucket)
      → Outcome Bool × InMemoryAggregateStore c
  unfolding overlapping_in
  overlapping task_id store (ok buckets) =
      let r = overlapping_in task_id buckets store in (ok r.0, r.1)
  overlapping task_id store (err e) = (err e, store)
  overlapping task_id store panic = (panic, store)

  unfoldable pub is_batch_overlapping :
      TaskId
      → DapTaskConfig
      → BatchSelector
      → InMemoryAggregateStore c
      → Outcome Bool × InMemoryAggregateStore c
  unfolding overlapping
  is_batch_overlapping task_id t batch_sel store =
      overlapping task_id store (batch_span_for_sel t batch_sel)

  -- `agg_share.merge(…)?`, and the rest of the loop.
  then_merge :
      (DapAggregateShare c → Outcome (DapAggregateShare c) × InMemoryAggregateStore c)
      → InMemoryAggregateStore c
      → Outcome (DapAggregateShare c)
      → Outcome (DapAggregateShare c) × InMemoryAggregateStore c
  then_merge rest store (ok agg_share) = rest agg_share
  then_merge rest store (err e) = (err e, store)
  then_merge rest store panic = (panic, store)

  unfoldable pub share_in :
      TaskId
      → List DapBatchBucket
      → DapAggregateShare c
      → InMemoryAggregateStore c
      → Outcome (DapAggregateShare c) × InMemoryAggregateStore c
  unfolding then_merge
  share_in task_id [] agg_share store = (ok agg_share, store)
  share_in task_id (bucket ∷ buckets) agg_share store =
      let r = for_bucket task_id bucket (λ entry. (entry, entry)) store in
      if r.0.collected
      then (err (abort batch_overlap), r.1)
      else then_merge (λ agg_share'. share_in task_id buckets agg_share' r.1) r.1
          (merge agg_share r.0.agg_share)

  share_of_span :
      TaskId
      → InMemoryAggregateStore c
      → Outcome (List DapBatchBucket)
      → Outcome (DapAggregateShare c) × InMemoryAggregateStore c
  unfolding share_in
  share_of_span task_id store (ok buckets) = share_in task_id buckets reset store
  share_of_span task_id store (err e) = (err e, store)
  share_of_span task_id store panic = (panic, store)

  unfoldable pub get_agg_share :
      TaskId
      → DapTaskConfig
      → BatchSelector
      → InMemoryAggregateStore c
      → Outcome (DapAggregateShare c) × InMemoryAggregateStore c
  unfolding share_of_span
  get_agg_share task_id t batch_sel store =
      share_of_span task_id store (batch_span_for_sel t batch_sel)

  unfoldable pub mark_all :
      TaskId → List DapBatchBucket → InMemoryAggregateStore c → InMemoryAggregateStore c
  mark_all task_id [] store = store
  mark_all task_id (bucket ∷ buckets) store =
      mark_all task_id buckets (for_bucket task_id bucket set_collected store).1

  mark_span :
      TaskId
      → InMemoryAggregateStore c
      → Outcome (List DapBatchBucket)
      → Outcome (Unit {0}) × InMemoryAggregateStore c
  unfolding mark_all
  mark_span task_id store (ok buckets) = (ok tt, mark_all task_id buckets store)
  mark_span task_id store (err e) = (err e, store)
  mark_span task_id store panic = (panic, store)

  unfoldable pub mark_collected :
      TaskId
      → DapTaskConfig
      → BatchSelector
      → InMemoryAggregateStore c
      → Outcome (Unit {0}) × InMemoryAggregateStore c
  unfolding mark_span
  mark_collected task_id t batch_sel store =
      mark_span task_id store (batch_span_for_sel t batch_sel)
