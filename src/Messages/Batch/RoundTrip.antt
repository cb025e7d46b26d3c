-- ===== src/Messages/Batch/RoundTrip.antt =====
-- The wire format of batch selectors and queries, and that decoding is the inverse of encoding.
use daphne.Common.{◌^◌, ◌<◌, [], ◌∷◌, flatten, arith}
use daphne.Codec.Base.{Bytes}
use daphne.Codec.Prio.{Prio, PrioLaws, to_be_bytes}
use daphne.Codec.RoundTrip.{RoundTrips, RoundTrips-bind, RoundTrips-done, RoundTrips-uint}
use daphne.Messages.Ids.{IsArray, RoundTrips-id}
use daphne.Messages.Batch.{
  Interval, PartialBatchSelector, BatchSelector, Query, query_type_time_interval,
  query_type_fixed_size, fixed_size_query_type_by_batch_id, fixed_size_query_type_current_batch,
  encode_part_batch_sel, decode_part_batch_sel, encode_interval, decode_interval, encode_batch_sel,
  decode_batch_sel, encode_query, decode_query,
}

pub record IsInterval (i : Interval) : Type 0 where
  pub start : i.start < 256 ^ 8
  pub duration : i.duration < 256 ^ 8

abbrev pub IsPartBatchSel : PartialBatchSelector → Type 0
IsPartBatchSel PartialBatchSelector.time_interval = Unit
IsPartBatchSel (PartialBatchSelector.fixed_size_by_batch_id id) = IsArray 32 id

abbrev pub IsBatchSel : BatchSelector → Type 0
IsBatchSel (BatchSelector.time_interval i) = IsInterval i
IsBatchSel (BatchSelector.fixed_size_by_batch_id id) = IsArray 32 id

abbrev pub IsQuery : Query → Type 0
IsQuery (Query.time_interval i) = IsInterval i
IsQuery (Query.fixed_size_by_batch_id id) = IsArray 32 id
IsQuery Query.fixed_size_current_batch = Unit

abbrev pub interval_wire : Interval → Bytes
interval_wire i = flatten (to_be_bytes 8 i.start ∷ to_be_bytes 8 i.duration ∷ [])

abbrev pub part_batch_sel_wire : PartialBatchSelector → Bytes
part_batch_sel_wire PartialBatchSelector.time_interval = flatten (to_be_bytes 1 1 ∷ [])
part_batch_sel_wire (PartialBatchSelector.fixed_size_by_batch_id id) =
    flatten (to_be_bytes 1 2 ∷ id ∷ [])

abbrev pub batch_sel_wire : BatchSelector → Bytes
batch_sel_wire (BatchSelector.time_interval i) = flatten (to_be_bytes 1 1 ∷ interval_wire i ∷ [])
batch_sel_wire (BatchSelector.fixed_size_by_batch_id id) = flatten (to_be_bytes 1 2 ∷ id ∷ [])

abbrev pub query_wire : Query → Bytes
query_wire (Query.time_interval i) = flatten (to_be_bytes 1 1 ∷ interval_wire i ∷ [])
query_wire (Query.fixed_size_by_batch_id id) = flatten (to_be_bytes 1 2 ∷ to_be_bytes 1 0 ∷ id ∷ [])
query_wire Query.fixed_size_current_batch = flatten (to_be_bytes 1 2 ∷ to_be_bytes 1 1 ∷ [])

module _ {p : Prio} (laws : PrioLaws p) where
  pub RoundTrips-interval :
      (i : Interval)
      → IsInterval i
      → RoundTrips (encode_interval p i) (decode_interval p) i (interval_wire i)
  unfolding encode_interval decode_interval
  RoundTrips-interval i h =
      RoundTrips-bind _ (RoundTrips-uint laws 8 i.start h.start)
        (RoundTrips-bind _ (RoundTrips-uint laws 8 i.duration h.duration) RoundTrips-done)

  pub RoundTrips-part_batch_sel :
      (s : PartialBatchSelector)
      → IsPartBatchSel s
      → RoundTrips (encode_part_batch_sel p s) (decode_part_batch_sel p) s (part_batch_sel_wire s)
  unfolding encode_part_batch_sel decode_part_batch_sel
  RoundTrips-part_batch_sel PartialBatchSelector.time_interval h =
      RoundTrips-bind _ (RoundTrips-uint laws 1 query_type_time_interval (omega arith))
        RoundTrips-done
  RoundTrips-part_batch_sel (PartialBatchSelector.fixed_size_by_batch_id id) h =
      RoundTrips-bind _ (RoundTrips-uint laws 1 query_type_fixed_size (omega arith))
        (RoundTrips-bind _ (RoundTrips-id 32 id h) RoundTrips-done)

  pub RoundTrips-batch_sel :
      (s : BatchSelector)
      → IsBatchSel s
      → RoundTrips (encode_batch_sel p s) (decode_batch_sel p) s (batch_sel_wire s)
  unfolding encode_batch_sel decode_batch_sel
  RoundTrips-batch_sel (BatchSelector.time_interval i) h =
      RoundTrips-bind _ (RoundTrips-uint laws 1 query_type_time_interval (omega arith))
        (RoundTrips-bind _ (RoundTrips-interval i h) RoundTrips-done)
  RoundTrips-batch_sel (BatchSelector.fixed_size_by_batch_id id) h =
      RoundTrips-bind _ (RoundTrips-uint laws 1 query_type_fixed_size (omega arith))
        (RoundTrips-bind _ (RoundTrips-id 32 id h) RoundTrips-done)

  pub RoundTrips-query :
      (q : Query) → IsQuery q → RoundTrips (encode_query p q) (decode_query p) q (query_wire q)
  unfolding encode_query decode_query
  RoundTrips-query (Query.time_interval i) h =
      RoundTrips-bind _ (RoundTrips-uint laws 1 query_type_time_interval (omega arith))
        (RoundTrips-bind _ (RoundTrips-interval i h) RoundTrips-done)
  RoundTrips-query (Query.fixed_size_by_batch_id id) h =
      RoundTrips-bind _ (RoundTrips-uint laws 1 query_type_fixed_size (omega arith)) (
        RoundTrips-bind _ (RoundTrips-uint laws 1 fixed_size_query_type_by_batch_id (omega arith))
          (RoundTrips-bind _ (RoundTrips-id 32 id h) RoundTrips-done))
  RoundTrips-query Query.fixed_size_current_batch h =
      RoundTrips-bind _ (RoundTrips-uint laws 1 query_type_fixed_size (omega arith)) (
        RoundTrips-bind _ (RoundTrips-uint laws 1 fixed_size_query_type_current_batch (omega arith))
          RoundTrips-done)
