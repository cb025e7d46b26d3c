-- ===== src/Share.antt =====
-- Aggregate shares (`DapAggregateShare` in crates/daphne/src/lib.rs). The field vectors inside
-- (`prio::vdaf::AggregateShare`) and SHA-256 (the crate `ring`) are parameters.
pub mod Summary
use daphne.Common.{
  ℕ, zero, suc, ◌+◌, ◌%◌, Bool, Option, none, some, List, ◌==◌, ltb, if◌then◌else◌, replicate,
  zip_xor, length,
}
use Prim.Native.Nat.{min, max}
use daphne.Codec.Base.{Bytes}
use daphne.Errors.{Outcome, ok, err, panic, fatal, ◌>>=◌}
use daphne.Messages.Ids.{ReportId}
use daphne.Task.{u64_end}

-- The fields of the shares that the VDAFs use.
pub data Field : Type 0 where
  field32 field64 field128 : Field

-- `AggregateShare<F>` and its `merge`, which fails on vectors of different lengths; and the digest.
pub record Crypto : Type 1 where
  pub FieldShare : Field → Type 0
  pub merge_field : (f : Field) → FieldShare f → FieldShare f → Option (FieldShare f)
  pub sha256 : Bytes → Bytes

module _ (c : Crypto) where
  pub data VdafAggregateShare : Type 0 where
    of_field32 : c.FieldShare field32 → VdafAggregateShare
    of_field64 : c.FieldShare field64 → VdafAggregateShare
    of_field128 : c.FieldShare field128 → VdafAggregateShare

  pub record DapAggregateShare : Type 0 where
    pub report_count : ℕ
    pub min_time : ℕ
    pub max_time : ℕ
    pub checksum : Bytes
    pub agg_data : Option VdafAggregateShare

module _ {c : Crypto} where
  -- The empty share: `DapAggregateShare::default()`, and what `reset` sets.
  unfoldable pub reset : DapAggregateShare c
  reset = record {
    report_count = 0;
    min_time = 0;
    max_time = 0;
    checksum = replicate 32 0;
    agg_data = none;
  }

  unfoldable pub empty : DapAggregateShare c → Bool
  empty s = s.report_count == 0

  merge_result :
      (f : Field)
      → (c.FieldShare f → VdafAggregateShare c)
      → Option (c.FieldShare f)
      → Outcome (Option (VdafAggregateShare c))
  merge_result f wrap (some merged) = ok (some (wrap merged))
  merge_result f wrap none = err fatal

  merge_same : VdafAggregateShare c → VdafAggregateShare c → Outcome (Option (VdafAggregateShare c))
  unfolding merge_result
  merge_same (of_field32 left) (of_field32 right) =
      merge_result field32 of_field32 (c.merge_field field32 left right)
  merge_same (of_field64 left) (of_field64 right) =
      merge_result field64 of_field64 (c.merge_field field64 left right)
  merge_same (of_field128 left) (of_field128 right) =
      merge_result field128 of_field128 (c.merge_field field128 left right)
  merge_same _ _ = err fatal

  merge_data :
      Option (VdafAggregateShare c)
      → Option (VdafAggregateShare c)
      → Outcome (Option (VdafAggregateShare c))
  unfolding merge_same
  merge_data left none = ok left
  merge_data none (some right) = ok (some right)
  merge_data (some left) (some right) = merge_same left right

  -- `report_count += other.report_count` wraps.
  unfoldable pub merge : DapAggregateShare c → DapAggregateShare c → Outcome (DapAggregateShare c)
  unfolding merge_data
  merge self other = do
    agg_data ← merge_data self.agg_data other.agg_data
    let times : ℕ × ℕ =
        if self.report_count == 0
        then (other.min_time, other.max_time)
        else if ltb 0 other.report_count
        then (min self.min_time other.min_time, max self.max_time other.max_time)
        else (self.min_time, self.max_time)
    ok (record {
      report_count = (self.report_count + other.report_count) % u64_end;
      min_time = times.0;
      max_time = times.1;
      checksum = zip_xor self.checksum other.checksum;
      agg_data = agg_data;
    })

  -- `try_into().unwrap()`: the digest has the 32 bytes of the array.
  unfoldable pub share_add_out_share :
      DapAggregateShare c → ReportId → ℕ → VdafAggregateShare c → Outcome (DapAggregateShare c)
  unfolding merge
  share_add_out_share self report_id time agg_data =
      let checksum = c.sha256 report_id in
      if length checksum == 32
      then merge self (record {
        report_count = 1;
        min_time = time;
        max_time = time;
        checksum = checksum;
        agg_data = some agg_data;
      })
      else panic
