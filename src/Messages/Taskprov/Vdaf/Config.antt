-- ===== src/Messages/Taskprov/Vdaf/Config.antt =====
-- VDAF configurations, whose decoder measures how much the first part took.
use daphne.Common.{
  Option, ℕ, ◌+◌, ◌-◌, ◌^◌, ◌<◌, ◌≡◌, ◌≢◌, ◌∙◌, refl, ap, [], ◌∷◌, ◌++◌, some, false, flatten,
  length, length-append, append_assoc, arith, ==_ne, ltb, append-nil,
}
use daphne.Codec.Base.{Bytes, ok, Reader, pure, ◌>>=◌}
use daphne.Codec.Prio.{Prio, PrioLaws, to_be_bytes}
use daphne.Codec.RoundTrip.{
  Reads, Reads-bind, Reads-pure, bind-ok, Appends-seq, Appends-done, RoundTrips, RoundTrips-bind,
  RoundTrips-done, RoundTrips-uint, RoundTrips-array, RoundTrips-last, vector,
}
use daphne.Codec.Lengths.RoundTrip.{RoundTrips-u16_prefixed}
use daphne.Messages.Taskprov.Vdaf.{
  VdafTypeVar, DpConfig, VdafConfig, prio2, prio3_sum_vec, pine32, pine64, no_dp, vdaf_type_prio2,
  vdaf_type_prio3_sum_vec, vdaf_type_pine_field32, vdaf_type_pine_field64, dp_mechanism_none,
  position, bytes_left_after, encode_vdaf_type_var, decode_vdaf_type_var, encode_dp_config,
  decode_dp_config, encode_vdaf_config, decode_vdaf_config,
}
use daphne.Messages.Taskprov.Vdaf.RoundTrip.{
  IsVdafTypeVar, vdaf_type_var_wire, RoundTrips-pine_param, RoundTrips-param,
}

abbrev pub IsDpConfig : DpConfig → Type 0
IsDpConfig no_dp = Unit
IsDpConfig (DpConfig.not_implemented typ param) =
    (typ < 256 ^ 1) × (typ ≢ dp_mechanism_none) × (length param + 1 < 256 ^ 2)

abbrev pub dp_config_wire : DpConfig → Bytes
dp_config_wire no_dp = flatten (to_be_bytes 1 dp_mechanism_none ∷ [])
dp_config_wire (DpConfig.not_implemented typ param) = flatten (to_be_bytes 1 typ ∷ param ∷ [])

pub record IsVdafConfig (v : VdafConfig) : Type 0 where
  pub dp_config : IsDpConfig v.dp_config
  pub var : IsVdafTypeVar v.var

abbrev pub vdaf_config_wire : VdafConfig → Bytes
vdaf_config_wire v = flatten (vector 2 (dp_config_wire v.dp_config) ∷ vdaf_type_var_wire v.var ∷ [])

-- The bytes that a reader took are counted by the positions before and after it.
Reads-measured :
    {A B : Type 0} {r : Reader A} (k : ℕ → A → Reader B) {x : A} {y : B} {s t : Bytes}
    → Reads r x s
    → Reads (k (length s) x) y t
    → Reads (position >>= λ a. r >>= λ x. position >>= λ b. k (b - a) x) y (s ++ t)
unfolding position
Reads-measured {r} k {x} {y} {s} {t} hr hk = record {
  at = λ pos rest fits.
      let assoc = append_assoc s t rest in
      let total = ap length assoc in
      rw (append_assoc s t rest) (
        bind-ok position _ refl
        ∙ bind-ok r _ (hr.at pos (t ++ rest) (rw (append_assoc s t rest) at fits))
        ∙ bind-ok position _ refl
        ∙ ap (λ n. k n x (record { position = pos + length s; rest = t ++ rest })) (omega arith)
        ∙ hk.at (pos + length s) rest (omega (arith, fits, total, length-append s (t ++ rest)))
        ∙ ap (λ n. ok (y, record { position = n; rest = rest }))
            (omega (arith, length-append s t)));
}

-- The rest of the length is what the later part has.
Reads-left :
    {B : Type 0} (used n : ℕ) (k : Option ℕ → Reader B) {y : B} {t : Bytes}
    → n ≡ used + length t
    → Reads (k (some (length t))) y t
    → Reads (bytes_left_after (some n) used >>= k) y t
unfolding bytes_left_after
Reads-left used n k {y} {t} e h = record {
  at = λ pos rest fits.
      let enough : ltb n used ≡ false = ground arith in
      let left : n - used ≡ length t = omega arith in
      bind-ok (bytes_left_after (some n) used) k (rw (enough, left)) ∙ h.at pos rest fits;
}

module _ {p : Prio} (laws : PrioLaws p) where
  -- `n` is the number of bytes that the writer of the whole takes.
  RoundTrips-vdaf_type_var :
      (v : VdafTypeVar) (n : ℕ)
      → IsVdafTypeVar v
      → n ≡ length (vdaf_type_var_wire v)
      → RoundTrips
          (encode_vdaf_type_var p v)
          (decode_vdaf_type_var p (some n))
          v
          (vdaf_type_var_wire v)
  unfolding encode_vdaf_type_var decode_vdaf_type_var
  RoundTrips-vdaf_type_var (prio2 dimension) n h e =
      RoundTrips-bind _ (RoundTrips-uint laws 4 vdaf_type_prio2 (omega arith))
        (RoundTrips-bind _ (RoundTrips-uint laws 4 dimension h) RoundTrips-done)
  RoundTrips-vdaf_type_var (prio3_sum_vec q) n h e =
      RoundTrips-bind _ (RoundTrips-uint laws 4 vdaf_type_prio3_sum_vec (omega arith)) (
        RoundTrips-last _ (prio3_sum_vec q)
          (RoundTrips-bind _ (RoundTrips-uint laws 4 q.len h.len) (
            RoundTrips-bind _ (RoundTrips-uint laws 1 q.bits h.bits) (
              RoundTrips-bind _ (RoundTrips-uint laws 4 q.chunk_length h.chunk_length) (
                RoundTrips-bind _ (RoundTrips-uint laws 1 q.num_proofs h.num_proofs)
                  (RoundTrips-done {x = q})))))
          refl)
  RoundTrips-vdaf_type_var (pine32 q) n h e =
      RoundTrips-bind _ (RoundTrips-uint laws 4 vdaf_type_pine_field32 (omega arith))
        (RoundTrips-bind _ (RoundTrips-pine_param laws q h) RoundTrips-done)
  RoundTrips-vdaf_type_var (pine64 q) n h e =
      RoundTrips-bind _ (RoundTrips-uint laws 4 vdaf_type_pine_field64 (omega arith))
        (RoundTrips-bind _ (RoundTrips-pine_param laws q h) RoundTrips-done)
  RoundTrips-vdaf_type_var (VdafTypeVar.not_implemented typ param) n (u32, a, b, c, d) e =
      RoundTrips-bind _ (RoundTrips-uint laws 4 typ u32) (
        rw (==_ne typ _ a, ==_ne typ _ b, ==_ne typ _ c, ==_ne typ _ d)
          (RoundTrips-bind _
            (record {
              appends = (RoundTrips-array (length param) param refl).appends;
              reads =
                  RoundTrips-param laws 4 n param (omega (arith, e, ap length (append-nil param)));
            })
            RoundTrips-done))

  RoundTrips-dp_config :
      (v : DpConfig) (n : ℕ)
      → IsDpConfig v
      → n ≡ length (dp_config_wire v)
      → RoundTrips (encode_dp_config p v) (decode_dp_config p (some n)) v (dp_config_wire v)
  unfolding encode_dp_config decode_dp_config
  RoundTrips-dp_config no_dp n h e =
      RoundTrips-bind _ (RoundTrips-uint laws 1 dp_mechanism_none (omega arith)) RoundTrips-done
  RoundTrips-dp_config (DpConfig.not_implemented typ param) n (u8, other, short) e =
      RoundTrips-bind _ (RoundTrips-uint laws 1 typ u8) (
        rw (==_ne typ _ other) (
          RoundTrips-bind _
            (record {
              appends = (RoundTrips-array (length param) param refl).appends;
              reads =
                  RoundTrips-param laws 1 n param (omega (arith, e, ap length (append-nil param)));
            })
            RoundTrips-done))

  length-dp_config : (v : DpConfig) → IsDpConfig v → length (dp_config_wire v) < 256 ^ 2
  length-dp_config no_dp h = omega arith
  length-dp_config (DpConfig.not_implemented typ param) h =
      omega (arith, ap length (append-nil param), h)

  -- A VDAF configuration is read back as it was written.
  pub RoundTrips-vdaf_config :
      (v : VdafConfig) (n : ℕ)
      → IsVdafConfig v
      → n ≡ length (vdaf_config_wire v)
      → RoundTrips (encode_vdaf_config p v) (decode_vdaf_config p (some n)) v (vdaf_config_wire v)
  unfolding encode_vdaf_config decode_vdaf_config
  RoundTrips-vdaf_config v n h e =
      let dp = dp_config_wire v.dp_config in
      let var = vdaf_type_var_wire v.var in
      let dp_part =
        RoundTrips-u16_prefixed laws (encode_dp_config p v.dp_config)
          (λ len. decode_dp_config p (some len)) v.dp_config dp
          (length-dp_config v.dp_config h.dp_config)
          (RoundTrips-dp_config v.dp_config (length dp) h.dp_config refl) in
      record {
        appends = Appends-seq dp_part.appends (
            Appends-seq (RoundTrips-vdaf_type_var v.var (length var) h.var refl).appends
              Appends-done);
        reads =
            Reads-measured
              (λ used x. bytes_left_after (some n) used >>= λ left.
                decode_vdaf_type_var p left >>= λ var. pure (record { dp_config = x; var = var }))
              dp_part.reads
              (Reads-left (length (vector 2 dp)) n
                (λ left. decode_vdaf_type_var p left >>= λ var.
                  pure (record { dp_config = v.dp_config; var = var }))
                (omega
                  (arith, e, length-append (vector 2 dp) (var ++ []), ap length (append-nil var)))
                (Reads-bind _
                  (RoundTrips-vdaf_type_var v.var (length (var ++ [])) h.var
                    (ap length (append-nil var))).reads
                  (Reads-pure v)));
      }
