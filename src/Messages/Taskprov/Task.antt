-- ===== src/Messages/Taskprov/Task.antt =====
-- `UrlBytes`, `QueryConfig` and `TaskConfig` of crates/daphne/src/messages/taskprov.rs.
pub mod RoundTrip
pub mod PastEnd
use daphne.Common.{ℕ, List, Option, none, some, ◌==◌, if◌then◌else◌}
use daphne.Codec.Base.{Bytes, other, Writer, Reader, ◌>>◌, done, ◌>>=◌, pure, fail, extend}
use daphne.Codec.Prio.{Prio}
use daphne.Codec.Lengths.{
  encode_u16_bytes, decode_u16_bytes, encode_u16_prefixed, decode_u16_prefixed,
}
use daphne.Messages.Batch.{query_type_time_interval, query_type_fixed_size}
use daphne.Messages.Taskprov.Vdaf.{VdafConfig, read_param, encode_vdaf_config, decode_vdaf_config}

pub record UrlBytes : Type 0 where
  pub bytes : Bytes

pub data QueryConfigVar : Type 0 where
  time_interval : QueryConfigVar
  fixed_size : ℕ → QueryConfigVar
  not_implemented : ℕ → Bytes → QueryConfigVar

pub record QueryConfig : Type 0 where
  pub time_precision : ℕ
  pub max_batch_query_count : ℕ
  pub min_batch_size : ℕ
  pub var : QueryConfigVar

pub record TaskConfig : Type 0 where
  pub task_info : Bytes
  pub leader_url : UrlBytes
  pub helper_url : UrlBytes
  pub query_config : QueryConfig
  pub task_expiration : ℕ
  pub vdaf_config : VdafConfig

module _ (p : Prio) where
  unfoldable pub encode_url_bytes : UrlBytes → Writer
  encode_url_bytes u = encode_u16_bytes p u.bytes

  unfoldable pub decode_url_bytes : Reader UrlBytes
  decode_url_bytes = do bytes ← decode_u16_bytes p; pure (record { bytes = bytes })

  encode_query_type : QueryConfigVar → Writer
  encode_query_type time_interval = do p.encode_uint 1 query_type_time_interval; done
  encode_query_type (fixed_size max_batch_size) = do p.encode_uint 1 query_type_fixed_size; done
  encode_query_type (not_implemented typ param) = do p.encode_uint 1 typ; done

  encode_query_param : QueryConfigVar → Writer
  encode_query_param time_interval = done
  encode_query_param (fixed_size max_batch_size) = do p.encode_uint 4 max_batch_size; done
  encode_query_param (not_implemented typ param) = do extend param; done

  unfoldable pub encode_query_config : QueryConfig → Writer
  unfolding encode_query_type encode_query_param
  encode_query_config q = do
    p.encode_uint 8 q.time_precision
    p.encode_uint 2 q.max_batch_query_count
    p.encode_uint 4 q.min_batch_size
    encode_query_type q.var
    encode_query_param q.var

  decode_unknown_query : Option ℕ → ℕ → Reader QueryConfigVar
  decode_unknown_query none typ = fail other
  decode_unknown_query (some bytes_left) typ = do
    param ← read_param bytes_left 15
    pure (not_implemented typ param)

  decode_query_var : Option ℕ → ℕ → Reader QueryConfigVar
  unfolding decode_unknown_query
  decode_query_var bytes_left query_type =
      if query_type == query_type_time_interval
      then pure time_interval
      else if query_type == query_type_fixed_size
      then (do max_batch_size ← p.decode_uint 4; pure (fixed_size max_batch_size))
      else decode_unknown_query bytes_left query_type

  unfoldable pub decode_query_config : Option ℕ → Reader QueryConfig
  unfolding decode_query_var
  decode_query_config bytes_left = do
    time_precision ← p.decode_uint 8
    max_batch_query_count ← p.decode_uint 2
    min_batch_size ← p.decode_uint 4
    query_type ← p.decode_uint 1
    var ← decode_query_var bytes_left query_type
    pure (record {
      time_precision = time_precision;
      max_batch_query_count = max_batch_query_count;
      min_batch_size = min_batch_size;
      var = var;
    })

  unfoldable pub encode_task_config : TaskConfig → Writer
  encode_task_config t = do
    p.encode_items ℕ 1 (p.encode_uint 1) t.task_info
    encode_url_bytes t.leader_url
    encode_url_bytes t.helper_url
    encode_u16_prefixed p (encode_query_config t.query_config)
    p.encode_uint 8 t.task_expiration
    encode_u16_prefixed p (encode_vdaf_config p t.vdaf_config)
    done

  unfoldable pub decode_task_config : Reader TaskConfig
  decode_task_config = do
    task_info ← p.decode_items ℕ 1 (p.decode_uint 1)
    leader_url ← decode_url_bytes
    helper_url ← decode_url_bytes
    query_config ← decode_u16_prefixed p (λ len. decode_query_config (some len))
    task_expiration ← p.decode_uint 8
    vdaf_config ← decode_u16_prefixed p (λ len. decode_vdaf_config p (some len))
    pure (record {
      task_info = task_info;
      leader_url = leader_url;
      helper_url = helper_url;
      query_config = query_config;
      task_expiration = task_expiration;
      vdaf_config = vdaf_config;
    })
