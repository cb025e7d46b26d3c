-- ===== src/Testing.antt =====
-- The aggregate storage in memory (`InMemoryAggregateStore` in crates/daphne/src/testing/mod.rs) and
-- the methods of `InMemoryAggregator` on it. The lock of the storage is left out. The text
-- `{task_id}/{bucket}` by which a bucket is found is the pair of the two here.
pub mod Laws
pub mod Replays
pub mod Batches
use daphne.Common.{ℕ, Bool, true, false, ◌&&◌, List, [], ◌∷◌, ◌++◌, map, if◌then◌else◌}
use daphne.Errors.{Outcome, ok, err, panic, fatal, abort, batch_overlap, ◌>>=◌, DapError}
use daphne.Messages.Ids.{TaskId, ReportId}
use daphne.Messages.Batch.{BatchSelector}
use daphne.Task.{DapTaskConfig, DapBatchBucket, batch_span_for_sel}
use daphne.Share.{Crypto, DapAggregateShare, reset, merge}
use daphne.Span.{bytes_eq, bucket_eq, Entry, DapAggregateSpan}
use daphne.Helper.{
  MergeAggShareError, MergeResult, merged, refused, already_collected, replays_detected, other,
  MergeSpan, report_id_of,
}
use daphne.Protocol.Init.{is_processed}

pub record AggregateStore (c : Crypto) : Type 0 where
  pub agg_share : DapAggregateShare c
  pub collected : Bool
  pub reports : List ReportId

abbrev pub InMemoryAggregateStore : Crypto → Type 0
InMemoryAggregateStore c = List ((TaskId × DapBatchBucket) × AggregateStore c)

-- The reports that are in the set already.
unfoldable pub replayed_in : List ReportId → List ReportId → List ReportId
unfolding is_processed
replayed_in reports [] = []
replayed_in reports (id ∷ ids) =
    let rest = replayed_in reports ids in if is_processed id reports then id ∷ rest else rest

module _ {c : Crypto} where
  abbrev pub new_store : AggregateStore c
  new_store = record { agg_share = reset; collected = false; reports = [] }

  -- `for_bucket`, and what the code does to the entry, with a value that it reads.
  unfoldable pub for_bucket :
      {B : Type 0}
      → TaskId
      → DapBatchBucket
      → (AggregateStore c → B × AggregateStore c)
      → InMemoryAggregateStore c
      → B × InMemoryAggregateStore c
  unfolding bytes_eq bucket_eq
  for_bucket task_id bucket f [] =
      let (b, entry) = f new_store in (b, ((task_id, bucket), entry) ∷ [])
  for_bucket task_id bucket f ((key, entry) ∷ store) =
      let rest = for_bucket task_id bucket f store in
      if bytes_eq key.0 task_id && bucket_eq key.1 bucket
      then (let r = f entry in (r.0, (key, r.1) ∷ store))
      else (rest.0, (key, entry) ∷ rest.1)

  -- `merge` never panics.
  merge_into : AggregateStore c → Outcome (DapAggregateShare c) → MergeResult × AggregateStore c
  merge_into entry (ok agg_share) = (
    merged,
    record { agg_share = agg_share; collected = entry.collected; reports = entry.reports },
  )
  merge_into entry (err e) = (refused (other e), entry)
  merge_into entry panic = (refused (other fatal), entry)

  put_new : DapAggregateShare c → List ReportId → AggregateStore c → MergeResult × AggregateStore c
  unfolding merge_into
  put_new agg_share_delta ids entry =
      let extended : AggregateStore c = record {
        agg_share = entry.agg_share;
        collected = entry.collected;
        reports = ids ++ entry.reports;
      } in
      if entry.collected
      then (refused already_collected, extended)
      else merge_into extended (merge entry.agg_share agg_share_delta)

  -- `if replayed.is_empty()`
  put_unless :
      DapAggregateShare c
      → List ReportId
      → AggregateStore c
      → List ReportId
      → MergeResult × AggregateStore c
  unfolding put_new
  put_unless agg_share_delta ids entry [] = put_new agg_share_delta ids entry
  put_unless agg_share_delta ids entry (id ∷ replayed) =
      (refused (replays_detected (id ∷ replayed)), entry)

  unfoldable pub put_bucket :
      DapAggregateShare c → List ReportId → AggregateStore c → MergeResult × AggregateStore c
  unfolding put_unless replayed_in
  put_bucket agg_share_delta ids entry =
      put_unless agg_share_delta ids entry (replayed_in entry.reports ids)

  unfoldable pub try_put_agg_share_span :
      TaskId
      → DapTaskConfig
      → DapAggregateSpan c
      → InMemoryAggregateStore c
      → MergeSpan × InMemoryAggregateStore c
  unfolding for_bucket put_bucket
  try_put_agg_share_span task_id t [] store = ([], store)
  try_put_agg_share_span task_id t ((bucket, (agg_share_delta, reports)) ∷ span) store =
      let r =
        for_bucket task_id bucket (put_bucket agg_share_delta (map report_id_of reports)) store in
      let rest = try_put_agg_share_span task_id t span r.1 in
      ((bucket, r.0, reports) ∷ rest.0, rest.1)
