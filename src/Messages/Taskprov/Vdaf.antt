-- ===== src/Messages/Taskprov/Vdaf.antt =====
-- `PineParam`, `VdafTypeVar`, `DpConfig` and `VdafConfig` of crates/daphne/src/messages/taskprov.rs.
-- `usize` has 64 bits, so that a decoded `u32` always fits.
pub mod RoundTrip
pub mod Config
use daphne.Common.{ℕ, ◌-◌, ◌^◌, Option, none, some, ◌==◌, ltb, if◌then◌else◌}
use daphne.Codec.Base.{
  Bytes, ok, err, panic, other, unexpected_value, Cursor, Writer, Reader, ◌>>◌, done, ◌>>=◌, pure,
  fail, extend, read_exact,
}
use daphne.Codec.Prio.{Prio}
use daphne.Codec.Lengths.{encode_u16_prefixed, decode_u16_prefixed}

abbrev pub vdaf_type_prio2 : ℕ
vdaf_type_prio2 = 0xffff_0000

abbrev pub vdaf_type_prio3_sum_vec : ℕ
vdaf_type_prio3_sum_vec = 0xffff_1003

abbrev pub vdaf_type_pine_field64 : ℕ
vdaf_type_pine_field64 = 0xffff_1004

abbrev pub vdaf_type_pine_field32 : ℕ
vdaf_type_pine_field32 = 0xffff_1005

abbrev pub dp_mechanism_none : ℕ
dp_mechanism_none = 0x01

pub record PineParam : Type 0 where
  pub norm_bound : ℕ
  pub dimension : ℕ
  pub frac_bits : ℕ
  pub chunk_len : ℕ
  pub chunk_len_sq_norm_equal : ℕ
  pub num_proofs : ℕ
  pub num_proofs_sq_norm_equal : ℕ
  pub num_wr_tests : ℕ
  pub num_wr_successes : ℕ

-- The fields `length`, `bits`, `chunk_length` and `num_proofs` of the variant.
pub record SumVecParam : Type 0 where
  pub len : ℕ
  pub bits : ℕ
  pub chunk_length : ℕ
  pub num_proofs : ℕ

pub data VdafTypeVar : Type 0 where
  prio2 : ℕ → VdafTypeVar
  prio3_sum_vec : SumVecParam → VdafTypeVar
  pine32 : PineParam → VdafTypeVar
  pine64 : PineParam → VdafTypeVar
  not_implemented : ℕ → Bytes → VdafTypeVar

pub data DpConfig : Type 0 where
  no_dp : DpConfig
  not_implemented : ℕ → Bytes → DpConfig

pub record VdafConfig : Type 0 where
  pub dp_config : DpConfig
  pub var : VdafTypeVar

-- `vec![0; bytes_left - used]` and `read_exact`: the subtraction on `usize` panics below 0.
unfoldable pub read_param : ℕ → ℕ → Reader Bytes
read_param bytes_left used c =
    if ltb bytes_left used then panic else read_exact (bytes_left - used) c

-- `bytes.position()`
unfoldable pub position : Reader ℕ
position c = ok (c.position, c)

-- `bytes_left.map(|l| l - prefix_len)`
unfoldable pub bytes_left_after : Option ℕ → ℕ → Reader (Option ℕ)
bytes_left_after none prefix_len c = ok (none, c)
bytes_left_after (some l) prefix_len c =
    if ltb l prefix_len then panic else ok (some (l - prefix_len), c)

module _ (p : Prio) where
  -- `u32::try_from(x).map_err(|_| UnexpectedValue)?.encode(bytes)?`, and so for `u16`
  unfoldable pub encode_try_from : ℕ → ℕ → Writer
  encode_try_from size v bytes =
      if ltb v (256 ^ size) then p.encode_uint size v bytes else err unexpected_value

  unfoldable pub encode_pine_param : PineParam → Writer
  encode_pine_param q = do
    p.encode_uint 8 q.norm_bound
    encode_try_from 4 q.frac_bits
    encode_try_from 4 q.dimension
    encode_try_from 4 q.chunk_len
    encode_try_from 4 q.chunk_len_sq_norm_equal
    p.encode_uint 1 q.num_proofs
    p.encode_uint 1 q.num_proofs_sq_norm_equal
    encode_try_from 2 q.num_wr_tests
    encode_try_from 2 q.num_wr_successes
    done

  unfoldable pub decode_pine_param : Reader PineParam
  decode_pine_param = do
    l2_norm_bound ← p.decode_uint 8
    num_frac_bits ← p.decode_uint 4
    len ← p.decode_uint 4
    chunk_length ← p.decode_uint 4
    chunk_length_norm_equality ← p.decode_uint 4
    num_proofs ← p.decode_uint 1
    num_proofs_sq_norm_equal ← p.decode_uint 1
    num_wr_checks ← p.decode_uint 2
    num_wr_successes ← p.decode_uint 2
    pure (record {
      norm_bound = l2_norm_bound;
      dimension = len;
      frac_bits = num_frac_bits;
      chunk_len = chunk_length;
      chunk_len_sq_norm_equal = chunk_length_norm_equality;
      num_proofs = num_proofs;
      num_proofs_sq_norm_equal = num_proofs_sq_norm_equal;
      num_wr_tests = num_wr_checks;
      num_wr_successes = num_wr_successes;
    })

  unfoldable pub encode_vdaf_type_var : VdafTypeVar → Writer
  encode_vdaf_type_var (prio2 dimension) = do
    p.encode_uint 4 vdaf_type_prio2
    p.encode_uint 4 dimension
    done
  encode_vdaf_type_var (prio3_sum_vec q) = do
    p.encode_uint 4 vdaf_type_prio3_sum_vec
    p.encode_uint 4 q.len
    p.encode_uint 1 q.bits
    p.encode_uint 4 q.chunk_length
    p.encode_uint 1 q.num_proofs
    done
  encode_vdaf_type_var (pine32 param) = do
    p.encode_uint 4 vdaf_type_pine_field32
    encode_pine_param param
    done
  encode_vdaf_type_var (pine64 param) = do
    p.encode_uint 4 vdaf_type_pine_field64
    encode_pine_param param
    done
  encode_vdaf_type_var (VdafTypeVar.not_implemented typ param) = do
    p.encode_uint 4 typ
    extend param
    done

  decode_sum_vec_param : Reader SumVecParam
  decode_sum_vec_param = do
    len ← p.decode_uint 4
    bits ← p.decode_uint 1
    chunk_length ← p.decode_uint 4
    num_proofs ← p.decode_uint 1
    pure (record { len = len; bits = bits; chunk_length = chunk_length; num_proofs = num_proofs })

  decode_unknown_vdaf : Option ℕ → ℕ → Reader VdafTypeVar
  decode_unknown_vdaf none typ = fail other
  decode_unknown_vdaf (some bytes_left) typ = do
    param ← read_param bytes_left 4
    pure (VdafTypeVar.not_implemented typ param)

  unfoldable pub decode_vdaf_type_var : Option ℕ → Reader VdafTypeVar
  unfolding decode_sum_vec_param decode_unknown_vdaf
  decode_vdaf_type_var bytes_left = do
    vdaf_type ← p.decode_uint 4
    if vdaf_type == vdaf_type_prio2
        then (do dimension ← p.decode_uint 4; pure (prio2 dimension))
        else if vdaf_type == vdaf_type_prio3_sum_vec
        then (do param ← decode_sum_vec_param; pure (prio3_sum_vec param))
        else if vdaf_type == vdaf_type_pine_field32
        then (do param ← decode_pine_param; pure (pine32 param))
        else if vdaf_type == vdaf_type_pine_field64
        then (do param ← decode_pine_param; pure (pine64 param))
        else decode_unknown_vdaf bytes_left vdaf_type

  unfoldable pub encode_dp_config : DpConfig → Writer
  encode_dp_config no_dp = do p.encode_uint 1 dp_mechanism_none; done
  encode_dp_config (DpConfig.not_implemented typ param) = do p.encode_uint 1 typ; extend param; done

  decode_unknown_dp : Option ℕ → ℕ → Reader DpConfig
  decode_unknown_dp none typ = fail other
  decode_unknown_dp (some bytes_left) typ = do
    param ← read_param bytes_left 1
    pure (DpConfig.not_implemented typ param)

  unfoldable pub decode_dp_config : Option ℕ → Reader DpConfig
  unfolding decode_unknown_dp
  decode_dp_config bytes_left = do
    dp_mechanism ← p.decode_uint 1
    if dp_mechanism == dp_mechanism_none
        then pure no_dp
        else decode_unknown_dp bytes_left dp_mechanism

  unfoldable pub encode_vdaf_config : VdafConfig → Writer
  encode_vdaf_config v = do
    encode_u16_prefixed p (encode_dp_config v.dp_config)
    encode_vdaf_type_var v.var
    done

  unfoldable pub decode_vdaf_config : Option ℕ → Reader VdafConfig
  decode_vdaf_config bytes_left = do
    prefix_start ← position
    dp_config ← decode_u16_prefixed p (λ len. decode_dp_config (some len))
    prefix_end ← position
    left ← bytes_left_after bytes_left (prefix_end - prefix_start)
    var ← decode_vdaf_type_var left
    pure (record { dp_config = dp_config; var = var })
