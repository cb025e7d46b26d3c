-- ===== src/Messages/Taskprov/Task/RoundTrip.antt =====
-- Task configurations are read back as they were written.
use daphne.Common.{
  ℕ, ◌+◌, ◌^◌, ◌<◌, ◌≡◌, ◌≢◌, refl, ap, [], ◌∷◌, ◌++◌, some, flatten, length, append-nil, map, All,
  arith, ==_ne,
}
use daphne.Codec.Base.{◌>>◌, done, Bytes}
use daphne.Codec.Prio.{Prio, PrioLaws, to_be_bytes, IsByte}
use daphne.Codec.RoundTrip.{
  RoundTrips, RoundTrips-bind, RoundTrips-done, RoundTrips-uint, RoundTrips-array, RoundTrips-items,
  RoundTrips-last, vector, IsItem, Appends-seq, Appends-done,
}
use daphne.Codec.Lengths.RoundTrip.{RoundTrips-u16_bytes, RoundTrips-u16_prefixed}
use daphne.Messages.Batch.{query_type_time_interval, query_type_fixed_size}
use daphne.Messages.Taskprov.Vdaf.RoundTrip.{RoundTrips-param}
use daphne.Messages.Taskprov.Vdaf.Config.{IsVdafConfig, vdaf_config_wire, RoundTrips-vdaf_config}
use daphne.Messages.Taskprov.Vdaf.{encode_vdaf_config, decode_vdaf_config}
use daphne.Messages.Taskprov.Task.{
  UrlBytes, QueryConfigVar, QueryConfig, TaskConfig, time_interval, fixed_size, not_implemented,
  encode_url_bytes, decode_url_bytes, encode_query_config, decode_query_config, encode_task_config,
  decode_task_config, encode_query_param, decode_query_var, encode_query_type,
}

abbrev pub IsQueryConfigVar : QueryConfigVar → Type 0
IsQueryConfigVar time_interval = Unit
IsQueryConfigVar (fixed_size max_batch_size) = max_batch_size < 256 ^ 4
IsQueryConfigVar (not_implemented typ param) =
    (typ < 256 ^ 1) × (typ ≢ query_type_time_interval) × (typ ≢ query_type_fixed_size)

pub record IsQueryConfig (q : QueryConfig) : Type 0 where
  pub time_precision : q.time_precision < 256 ^ 8
  pub max_batch_query_count : q.max_batch_query_count < 256 ^ 2
  pub min_batch_size : q.min_batch_size < 256 ^ 4
  pub var : IsQueryConfigVar q.var

abbrev query_type : QueryConfigVar → ℕ
query_type time_interval = query_type_time_interval
query_type (fixed_size max_batch_size) = query_type_fixed_size
query_type (not_implemented typ param) = typ

abbrev query_param_wire : QueryConfigVar → Bytes
query_param_wire time_interval = []
query_param_wire (fixed_size max_batch_size) = flatten (to_be_bytes 4 max_batch_size ∷ [])
query_param_wire (not_implemented typ param) = flatten (param ∷ [])

abbrev pub query_config_wire : QueryConfig → Bytes
query_config_wire q =
    to_be_bytes 8 q.time_precision
    ++ (to_be_bytes 2 q.max_batch_query_count
        ++ (to_be_bytes 4 q.min_batch_size
            ++ (to_be_bytes 1 (query_type q.var) ++ query_param_wire q.var)))

abbrev pub task_config_wire : TaskConfig → Bytes
task_config_wire t = flatten (
    vector 1 (flatten (map (to_be_bytes 1) t.task_info))
    ∷ vector 2 t.leader_url.bytes
    ∷ vector 2 t.helper_url.bytes
    ∷ vector 2 (query_config_wire t.query_config)
    ∷ to_be_bytes 8 t.task_expiration
    ∷ vector 2 (vdaf_config_wire t.vdaf_config)
    ∷ [])

pub record IsTaskConfig (t : TaskConfig) : Type 0 where
  pub task_info : All IsByte t.task_info
  pub task_info_fits : length (flatten (map (to_be_bytes 1) t.task_info)) < 256 ^ 1
  pub leader_url : length t.leader_url.bytes < 256 ^ 2
  pub helper_url : length t.helper_url.bytes < 256 ^ 2
  pub query_config : IsQueryConfig t.query_config
  pub query_config_fits : length (query_config_wire t.query_config) < 256 ^ 2
  pub task_expiration : t.task_expiration < 256 ^ 8
  pub vdaf_config : IsVdafConfig t.vdaf_config
  pub vdaf_config_fits : length (vdaf_config_wire t.vdaf_config) < 256 ^ 2

module _ {p : Prio} (laws : PrioLaws p) where
  pub RoundTrips-url_bytes :
      (u : UrlBytes)
      → length u.bytes < 256 ^ 2
      → RoundTrips (encode_url_bytes p u) (decode_url_bytes p) u (vector 2 u.bytes)
  unfolding encode_url_bytes decode_url_bytes
  RoundTrips-url_bytes u h = RoundTrips-last _ u (RoundTrips-u16_bytes laws u.bytes h) refl

  RoundTrips-byte :
      (x : ℕ)
      → x < 256 ^ 1
      → RoundTrips (p.encode_uint 1 x >> done) (p.decode_uint 1) x (to_be_bytes 1 x)
  RoundTrips-byte x h =
      let byte = RoundTrips-uint laws 1 x h in
      record { appends = Appends-seq byte.appends Appends-done; reads = byte.reads }

  RoundTrips-query_type :
      (v : QueryConfigVar)
      → IsQueryConfigVar v
      → RoundTrips
          (encode_query_type p v)
          (p.decode_uint 1)
          (query_type v)
          (to_be_bytes 1 (query_type v))
  unfolding encode_query_type
  RoundTrips-query_type time_interval h = RoundTrips-byte query_type_time_interval (omega arith)
  RoundTrips-query_type (fixed_size max_batch_size) h =
      RoundTrips-byte query_type_fixed_size (omega arith)
  RoundTrips-query_type (not_implemented typ param) h = RoundTrips-byte typ h.0

  RoundTrips-query_param :
      (v : QueryConfigVar) (n : ℕ)
      → IsQueryConfigVar v
      → n ≡ 15 + length (query_param_wire v)
      → RoundTrips
          (encode_query_param p v)
          (decode_query_var p (some n) (query_type v))
          v
          (query_param_wire v)
  unfolding encode_query_param decode_query_var
  RoundTrips-query_param time_interval n h e = RoundTrips-done
  RoundTrips-query_param (fixed_size max_batch_size) n h e =
      RoundTrips-bind _ (RoundTrips-uint laws 4 max_batch_size h) RoundTrips-done
  RoundTrips-query_param (not_implemented typ param) n (u8, a, b) e =
      rw (==_ne typ _ a, ==_ne typ _ b)
        (RoundTrips-bind _
          (record {
            appends = (RoundTrips-array (length param) param refl).appends;
            reads =
                RoundTrips-param laws 15 n param (omega (arith, e, ap length (append-nil param)));
          })
          RoundTrips-done)

  RoundTrips-query_config :
      (q : QueryConfig) (n : ℕ)
      → IsQueryConfig q
      → n ≡ length (query_config_wire q)
      → RoundTrips
          (encode_query_config p q)
          (decode_query_config p (some n))
          q
          (query_config_wire q)
  unfolding encode_query_config decode_query_config
  RoundTrips-query_config q n h e =
      RoundTrips-bind _ (RoundTrips-uint laws 8 q.time_precision h.time_precision) (
        RoundTrips-bind _ (RoundTrips-uint laws 2 q.max_batch_query_count h.max_batch_query_count) (
          RoundTrips-bind _ (RoundTrips-uint laws 4 q.min_batch_size h.min_batch_size) (
            RoundTrips-bind _ (RoundTrips-query_type q.var h.var)
              (RoundTrips-last _ q (RoundTrips-query_param q.var n h.var (omega arith)) refl))))

  pub task_info_items :
      (xs : Bytes)
      → All IsByte xs
      → All (IsItem (p.encode_uint 1) (p.decode_uint 1) (to_be_bytes 1)) xs
  task_info_items [] h = tt
  task_info_items (x ∷ xs) h =
      ((RoundTrips-uint laws 1 x (omega arith), omega arith), task_info_items xs h.1)

  -- For every codec with the laws of `PrioLaws` and every task configuration whose parts fit their
  -- fields, an unknown variant not having the code of a known one (`IsTaskConfig`): the encoder
  -- appends exactly the bytes of its wire format to what was written before, and the decoder,
  -- wherever those bytes stand in a buffer of less than 2^63 bytes and whatever follows them,
  -- returns the value and stops behind them.
  pub RoundTrips-task_config :
      (t : TaskConfig)
      → IsTaskConfig t
      → RoundTrips (encode_task_config p t) (decode_task_config p) t (task_config_wire t)
  unfolding encode_task_config decode_task_config
  RoundTrips-task_config t h =
      RoundTrips-bind _
        (RoundTrips-items laws 1 (p.encode_uint 1) (p.decode_uint 1) (to_be_bytes 1) t.task_info
          (task_info_items t.task_info h.task_info) h.task_info_fits)
        (RoundTrips-bind _ (RoundTrips-url_bytes t.leader_url h.leader_url) (
          RoundTrips-bind _ (RoundTrips-url_bytes t.helper_url h.helper_url) (
            RoundTrips-bind _
              (RoundTrips-u16_prefixed laws (encode_query_config p t.query_config)
                (λ len. decode_query_config p (some len)) t.query_config
                (query_config_wire t.query_config) h.query_config_fits
                (RoundTrips-query_config t.query_config _ h.query_config refl))
              (RoundTrips-bind _ (RoundTrips-uint laws 8 t.task_expiration h.task_expiration) (
                RoundTrips-bind _
                  (RoundTrips-u16_prefixed laws (encode_vdaf_config p t.vdaf_config)
                    (λ len. decode_vdaf_config p (some len)) t.vdaf_config
                    (vdaf_config_wire t.vdaf_config) h.vdaf_config_fits
                    (RoundTrips-vdaf_config laws t.vdaf_config _ h.vdaf_config refl))
                  RoundTrips-done)))))
