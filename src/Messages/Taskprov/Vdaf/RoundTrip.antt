-- ===== src/Messages/Taskprov/Vdaf/RoundTrip.antt =====
-- VDAF configurations are read back as they were written, given the length of what was written.
use daphne.Common.{
  ℕ, ◌+◌, ◌-◌, ◌^◌, ◌<◌, ◌≡◌, ◌≢◌, [], ◌∷◌, ◌++◌, false, flatten, length, arith, ltb, lt→ltb,
}
use daphne.Codec.Base.{Bytes}
use daphne.Codec.Prio.{Prio, PrioLaws, to_be_bytes}
use daphne.Codec.RoundTrip.{
  Reads, RoundTrips, RoundTrips-bind, RoundTrips-done, RoundTrips-uint, RoundTrips-array,
}
use daphne.Messages.Taskprov.Vdaf.{
  PineParam, SumVecParam, VdafTypeVar, prio2, prio3_sum_vec, pine32, pine64, vdaf_type_prio2,
  vdaf_type_prio3_sum_vec, vdaf_type_pine_field32, vdaf_type_pine_field64, read_param,
  encode_try_from, encode_pine_param, decode_pine_param,
}

pub record IsPineParam (q : PineParam) : Type 0 where
  pub norm_bound : q.norm_bound < 256 ^ 8
  pub dimension : q.dimension < 256 ^ 4
  pub frac_bits : q.frac_bits < 256 ^ 4
  pub chunk_len : q.chunk_len < 256 ^ 4
  pub chunk_len_sq_norm_equal : q.chunk_len_sq_norm_equal < 256 ^ 4
  pub num_proofs : q.num_proofs < 256 ^ 1
  pub num_proofs_sq_norm_equal : q.num_proofs_sq_norm_equal < 256 ^ 1
  pub num_wr_tests : q.num_wr_tests < 256 ^ 2
  pub num_wr_successes : q.num_wr_successes < 256 ^ 2

pub record IsSumVecParam (q : SumVecParam) : Type 0 where
  pub len : q.len < 256 ^ 4
  pub bits : q.bits < 256 ^ 1
  pub chunk_length : q.chunk_length < 256 ^ 4
  pub num_proofs : q.num_proofs < 256 ^ 1

abbrev pub IsUnknownVdaf : ℕ → Type 0
IsUnknownVdaf typ =
    (typ < 256 ^ 4)
    × (typ ≢ vdaf_type_prio2)
    × (typ ≢ vdaf_type_prio3_sum_vec)
    × (typ ≢ vdaf_type_pine_field32)
    × (typ ≢ vdaf_type_pine_field64)

abbrev pub IsVdafTypeVar : VdafTypeVar → Type 0
IsVdafTypeVar (prio2 dimension) = dimension < 256 ^ 4
IsVdafTypeVar (prio3_sum_vec q) = IsSumVecParam q
IsVdafTypeVar (pine32 q) = IsPineParam q
IsVdafTypeVar (pine64 q) = IsPineParam q
IsVdafTypeVar (VdafTypeVar.not_implemented typ param) = IsUnknownVdaf typ

abbrev pub pine_param_wire : PineParam → Bytes
pine_param_wire q = flatten (
    to_be_bytes 8 q.norm_bound
    ∷ to_be_bytes 4 q.frac_bits
    ∷ to_be_bytes 4 q.dimension
    ∷ to_be_bytes 4 q.chunk_len
    ∷ to_be_bytes 4 q.chunk_len_sq_norm_equal
    ∷ to_be_bytes 1 q.num_proofs
    ∷ to_be_bytes 1 q.num_proofs_sq_norm_equal
    ∷ to_be_bytes 2 q.num_wr_tests
    ∷ to_be_bytes 2 q.num_wr_successes
    ∷ [])

abbrev pub sum_vec_param_wire : SumVecParam → Bytes
sum_vec_param_wire q = flatten (
    to_be_bytes 4 q.len
    ∷ to_be_bytes 1 q.bits
    ∷ to_be_bytes 4 q.chunk_length
    ∷ to_be_bytes 1 q.num_proofs
    ∷ [])

abbrev pub vdaf_type_var_wire : VdafTypeVar → Bytes
vdaf_type_var_wire (prio2 dimension) =
    flatten (to_be_bytes 4 vdaf_type_prio2 ∷ to_be_bytes 4 dimension ∷ [])
vdaf_type_var_wire (prio3_sum_vec q) = to_be_bytes 4 vdaf_type_prio3_sum_vec ++ sum_vec_param_wire q
vdaf_type_var_wire (pine32 q) =
    flatten (to_be_bytes 4 vdaf_type_pine_field32 ∷ pine_param_wire q ∷ [])
vdaf_type_var_wire (pine64 q) =
    flatten (to_be_bytes 4 vdaf_type_pine_field64 ∷ pine_param_wire q ∷ [])
vdaf_type_var_wire (VdafTypeVar.not_implemented typ param) =
    flatten (to_be_bytes 4 typ ∷ param ∷ [])

module _ {p : Prio} (laws : PrioLaws p) where
  RoundTrips-try_from :
      (size v : ℕ)
      → v < 256 ^ size
      → RoundTrips (encode_try_from p size v) (p.decode_uint size) v (to_be_bytes size v)
  unfolding encode_try_from
  RoundTrips-try_from size v h =
      let int = RoundTrips-uint laws size v h in
      record {
        appends = record { at = λ bytes. rw (lt→ltb v (256 ^ size) h) (int.appends.at bytes) };
        reads = int.reads;
      }

  pub RoundTrips-pine_param :
      (q : PineParam)
      → IsPineParam q
      → RoundTrips (encode_pine_param p q) (decode_pine_param p) q (pine_param_wire q)
  unfolding encode_pine_param decode_pine_param
  RoundTrips-pine_param q h = RoundTrips-bind _ (RoundTrips-uint laws 8 q.norm_bound h.norm_bound) (
      RoundTrips-bind _ (RoundTrips-try_from 4 q.frac_bits h.frac_bits) (
        RoundTrips-bind _ (RoundTrips-try_from 4 q.dimension h.dimension) (
          RoundTrips-bind _ (RoundTrips-try_from 4 q.chunk_len h.chunk_len) (
            RoundTrips-bind _
              (RoundTrips-try_from 4 q.chunk_len_sq_norm_equal h.chunk_len_sq_norm_equal)
              (RoundTrips-bind _ (RoundTrips-uint laws 1 q.num_proofs h.num_proofs) (
                RoundTrips-bind _
                  (RoundTrips-uint laws 1 q.num_proofs_sq_norm_equal h.num_proofs_sq_norm_equal)
                  (RoundTrips-bind _ (RoundTrips-try_from 2 q.num_wr_tests h.num_wr_tests) (
                    RoundTrips-bind _ (RoundTrips-try_from 2 q.num_wr_successes h.num_wr_successes)
                      RoundTrips-done))))))))

  -- What is left behind the type code is the parameter.
  pub RoundTrips-param :
      (used bytes_left : ℕ) (param : Bytes)
      → bytes_left ≡ used + length param
      → Reads (read_param bytes_left used) param param
  unfolding read_param
  RoundTrips-param used bytes_left param e = record {
    at = λ pos rest fits.
        let enough : ltb bytes_left used ≡ false = ground arith in
        rw enough
          ((RoundTrips-array (bytes_left - used) param (omega arith)).reads.at pos rest fits);
  }
