-- ===== src/Span.antt =====
-- Aggregate spans (`DapAggregateSpan` and `ReportId::shard` in crates/daphne/src/lib.rs): the map
-- from batch buckets to the shares and the reports in them, as an association list.
pub mod Buckets
pub mod Summary
pub mod Reports
pub mod Merge
pub mod Covered
use daphne.Common.{
  ℕ, zero, suc, ◌+◌, ◌*◌, ◌%◌, Bool, true, false, ◌&&◌, Option, none, some, List, [], ◌∷◌, ◌++◌,
  ◌==◌, if◌then◌else◌, take,
}
use daphne.Codec.Base.{Bytes}
use daphne.Errors.{Outcome, ok, err, panic, fatal, ◌>>=◌}
use daphne.Messages.Ids.{ReportId}
use daphne.Messages.Batch.{PartialBatchSelector}
use daphne.Task.{DapTaskConfig, DapBatchBucket, is_valid_part_batch_sel, bucket_for}
use daphne.Share.{Crypto, VdafAggregateShare, DapAggregateShare, reset, merge, share_add_out_share}

unfoldable pub bytes_eq : Bytes → Bytes → Bool
bytes_eq [] [] = true
bytes_eq (x ∷ xs) (y ∷ ys) = (x == y) && bytes_eq xs ys
bytes_eq _ _ = false

-- The derived `PartialEq`, which the `HashMap` uses.
unfoldable pub bucket_eq : DapBatchBucket → DapBatchBucket → Bool
unfolding bytes_eq
bucket_eq (DapBatchBucket.fixed_size id shard) (DapBatchBucket.fixed_size id' shard') =
    bytes_eq id id' && (shard == shard')
bucket_eq (DapBatchBucket.time_interval window shard)
      (DapBatchBucket.time_interval window' shard') =
    (window == window') && (shard == shard')
bucket_eq _ _ = false

abbrev from_le_bytes : Bytes → ℕ
from_le_bytes [] = 0
from_le_bytes (x ∷ xs) = x + 256 * from_le_bytes xs

unfoldable pub shard : (Bytes → Bytes) → ReportId → ℕ → ℕ
shard sha256 id num_shards = from_le_bytes (take 4 (sha256 id)) % num_shards

module _ (c : Crypto) where
  -- The share of a bucket and the IDs and times of its reports.
  abbrev pub Entry : Type 0
  Entry = DapAggregateShare c × List (ReportId × ℕ)

  abbrev pub DapAggregateSpan : Type 0
  DapAggregateSpan = List (DapBatchBucket × Entry)

module _ {c : Crypto} where
  unfoldable pub get : DapAggregateSpan c → DapBatchBucket → Option (Entry c)
  unfolding bucket_eq
  get [] bucket = none
  get ((key, entry) ∷ span) bucket = if bucket_eq key bucket then some entry else get span bucket

  abbrev pub or_default : Option (Entry c) → Entry c
  or_default none = (reset, [])
  or_default (some entry) = entry

  -- `span.entry(bucket).or_default()`, and what the code does to the entry.
  unfoldable pub update_entry :
      DapBatchBucket
      → (Entry c → Outcome (Entry c))
      → DapAggregateSpan c
      → Outcome (DapAggregateSpan c)
  unfolding bucket_eq
  update_entry bucket f [] = do entry ← f (or_default none); ok ((bucket, entry) ∷ [])
  update_entry bucket f ((key, entry) ∷ span) =
      let rest = update_entry bucket f span in
      if bucket_eq key bucket
      then (do entry' ← f entry; ok ((key, entry') ∷ span))
      else (do span' ← rest; ok ((key, entry) ∷ span'))

  unfoldable pub add_out_share :
      DapTaskConfig
      → PartialBatchSelector
      → ReportId
      → ℕ
      → VdafAggregateShare c
      → DapAggregateSpan c
      → Outcome (DapAggregateSpan c)
  unfolding update_entry shard
  add_out_share t part_batch_sel report_id time agg_data span =
      if is_valid_part_batch_sel t.query part_batch_sel
      then (do
        bucket ← bucket_for t part_batch_sel time (shard c.sha256 report_id t.num_agg_span_shards)
        update_entry bucket
            (λ entry. do
              agg_share ← share_add_out_share entry.0 report_id time agg_data
              ok (agg_share, entry.1 ++ ((report_id, time) ∷ [])))
            span)
      else err fatal

  -- `DapAggregateSpan::merge`: the entries of the other span, one after the other.
  unfoldable pub merge_span : DapAggregateSpan c → DapAggregateSpan c → Outcome (DapAggregateSpan c)
  unfolding update_entry
  merge_span self [] = ok self
  merge_span self ((bucket, other) ∷ rest) = do
    span ←
        update_entry bucket
          (λ entry. do agg_share ← merge entry.0 other.0; ok (agg_share, entry.1 ++ other.1)) self
    merge_span span rest
