-- ===== src/Messages/Batch.antt =====
-- Batch selectors, intervals and queries (crates/daphne/src/messages/mod.rs).
pub mod RoundTrip
use daphne.Common.{ℕ, ◌+◌, ◌==◌, if◌then◌else◌, Option, some, none}
use daphne.Codec.Base.{Writer, Reader, unexpected_value, ◌>>◌, done, ◌>>=◌, pure, fail}
use daphne.Codec.Prio.{Prio}
use daphne.Messages.Ids.{BatchId, encode_id, decode_id}

abbrev pub query_type_time_interval : ℕ
query_type_time_interval = 0x01

abbrev pub query_type_fixed_size : ℕ
query_type_fixed_size = 0x02

abbrev pub fixed_size_query_type_by_batch_id : ℕ
fixed_size_query_type_by_batch_id = 0x00

abbrev pub fixed_size_query_type_current_batch : ℕ
fixed_size_query_type_current_batch = 0x01

pub record Interval : Type 0 where
  pub start : ℕ
  pub duration : ℕ

pub data PartialBatchSelector : Type 0 where
  time_interval : PartialBatchSelector
  fixed_size_by_batch_id : BatchId → PartialBatchSelector

pub data BatchSelector : Type 0 where
  time_interval : Interval → BatchSelector
  fixed_size_by_batch_id : BatchId → BatchSelector

pub data Query : Type 0 where
  time_interval : Interval → Query
  fixed_size_by_batch_id : BatchId → Query
  fixed_size_current_batch : Query

-- `From<BatchSelector> for PartialBatchSelector`
unfoldable pub part_batch_sel_of : BatchSelector → PartialBatchSelector
part_batch_sel_of (BatchSelector.time_interval i) = PartialBatchSelector.time_interval
part_batch_sel_of (BatchSelector.fixed_size_by_batch_id id) =
    PartialBatchSelector.fixed_size_by_batch_id id

unfoldable pub into_batch_sel : Query → Option BatchSelector
into_batch_sel (Query.time_interval i) = some (BatchSelector.time_interval i)
into_batch_sel (Query.fixed_size_by_batch_id id) = some (BatchSelector.fixed_size_by_batch_id id)
into_batch_sel Query.fixed_size_current_batch = none

-- `From<BatchSelector> for Query`
unfoldable pub query_of : BatchSelector → Query
query_of (BatchSelector.time_interval i) = Query.time_interval i
query_of (BatchSelector.fixed_size_by_batch_id id) = Query.fixed_size_by_batch_id id

module _ (p : Prio) where
  unfoldable pub encode_part_batch_sel : PartialBatchSelector → Writer
  encode_part_batch_sel PartialBatchSelector.time_interval = do
    p.encode_uint 1 query_type_time_interval
    done
  encode_part_batch_sel (PartialBatchSelector.fixed_size_by_batch_id batch_id) = do
    p.encode_uint 1 query_type_fixed_size
    encode_id batch_id
    done

  unfoldable pub decode_part_batch_sel : Reader PartialBatchSelector
  decode_part_batch_sel = do
    typ ← p.decode_uint 1
    if typ == query_type_time_interval
        then pure PartialBatchSelector.time_interval
        else if typ == query_type_fixed_size
        then (do
          batch_id ← decode_id 32
          pure (PartialBatchSelector.fixed_size_by_batch_id batch_id))
        else fail unexpected_value

  unfoldable pub encode_interval : Interval → Writer
  encode_interval i = do p.encode_uint 8 i.start; p.encode_uint 8 i.duration; done

  unfoldable pub decode_interval : Reader Interval
  decode_interval = do
    start ← p.decode_uint 8
    duration ← p.decode_uint 8
    pure (record { start = start; duration = duration })

  unfoldable pub encode_batch_sel : BatchSelector → Writer
  encode_batch_sel (BatchSelector.time_interval batch_interval) = do
    p.encode_uint 1 query_type_time_interval
    encode_interval batch_interval
    done
  encode_batch_sel (BatchSelector.fixed_size_by_batch_id batch_id) = do
    p.encode_uint 1 query_type_fixed_size
    encode_id batch_id
    done

  unfoldable pub decode_batch_sel : Reader BatchSelector
  decode_batch_sel = do
    typ ← p.decode_uint 1
    if typ == query_type_time_interval
        then (do
          batch_interval ← decode_interval
          pure (BatchSelector.time_interval batch_interval))
        else if typ == query_type_fixed_size
        then (do batch_id ← decode_id 32; pure (BatchSelector.fixed_size_by_batch_id batch_id))
        else fail unexpected_value

  unfoldable pub encode_query : Query → Writer
  encode_query (Query.time_interval batch_interval) = do
    p.encode_uint 1 query_type_time_interval
    encode_interval batch_interval
    done
  encode_query (Query.fixed_size_by_batch_id batch_id) = do
    p.encode_uint 1 query_type_fixed_size
    p.encode_uint 1 fixed_size_query_type_by_batch_id
    encode_id batch_id
    done
  encode_query Query.fixed_size_current_batch = do
    p.encode_uint 1 query_type_fixed_size
    p.encode_uint 1 fixed_size_query_type_current_batch
    done

  decode_fixed_size_query : Reader Query
  decode_fixed_size_query = do
    subtype ← p.decode_uint 1
    if subtype == fixed_size_query_type_by_batch_id
        then (do batch_id ← decode_id 32; pure (Query.fixed_size_by_batch_id batch_id))
        else if subtype == fixed_size_query_type_current_batch
        then pure Query.fixed_size_current_batch
        else fail unexpected_value

  unfoldable pub decode_query : Reader Query
  unfolding decode_fixed_size_query
  decode_query = do
    typ ← p.decode_uint 1
    if typ == query_type_time_interval
        then (do batch_interval ← decode_interval; pure (Query.time_interval batch_interval))
        else if typ == query_type_fixed_size
        then decode_fixed_size_query
        else fail unexpected_value
