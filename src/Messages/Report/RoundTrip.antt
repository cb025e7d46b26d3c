-- ===== src/Messages/Report/RoundTrip.antt =====
-- The wire format of reports, and that decoding is the inverse of encoding.
use daphne.Common.{==_ne, ◌^◌, ◌<◌, ◌≢◌, List, [], ◌∷◌, All, length, flatten, map, arith}
use daphne.Codec.Base.{Bytes, done, pure}
use daphne.Codec.Prio.{Prio, PrioLaws, to_be_bytes}
use daphne.Codec.RoundTrip.{
  RoundTrips, RoundTrips-bind, RoundTrips-done, RoundTrips-uint, RoundTrips-items, vector, IsItem,
}
use daphne.Codec.Lengths.RoundTrip.{
  RoundTrips-u16_bytes, RoundTrips-u32_bytes, RoundTrips-u16_prefixed,
}
use daphne.Messages.Ids.{IsArray, RoundTrips-id}
use daphne.Messages.Report.{
  Extension, taskprov, not_implemented, extension_taskprov, ReportMetadata, HpkeCiphertext, Report,
  ReportShare, PlaintextInputShare, encode_extension, decode_extension, encode_metadata,
  decode_metadata, encode_ciphertext, decode_ciphertext, encode_report, decode_report,
  encode_report_share, decode_report_share, encode_input_share, decode_input_share,
}

-- What the Rust types guarantee, and that each length fits its prefix.
abbrev pub IsExtension : Extension → Type 0
IsExtension taskprov = Unit
IsExtension (not_implemented typ payload) =
    (typ < 256 ^ 2) × (typ ≢ extension_taskprov) × (length payload < 256 ^ 2)

pub record IsMetadata (m : ReportMetadata) : Type 0 where
  pub id : IsArray 16 m.id
  pub time : m.time < 256 ^ 8

pub record IsCiphertext (c : HpkeCiphertext) : Type 0 where
  pub config_id : c.config_id < 256 ^ 1
  pub enc : length c.enc < 256 ^ 2
  pub payload : length c.payload < 256 ^ 4

pub record IsReport (r : Report) : Type 0 where
  pub report_metadata : IsMetadata r.report_metadata
  pub public_share : length r.public_share < 256 ^ 4
  pub leader_share : IsCiphertext r.leader_share
  pub helper_share : IsCiphertext r.helper_share

pub record IsReportShare (r : ReportShare) : Type 0 where
  pub report_metadata : IsMetadata r.report_metadata
  pub public_share : length r.public_share < 256 ^ 4
  pub encrypted_input_share : IsCiphertext r.encrypted_input_share

-- The wire format, as the concatenation of its fields.
abbrev pub extension_wire : Extension → Bytes
extension_wire taskprov = flatten (to_be_bytes 2 extension_taskprov ∷ vector 2 [] ∷ [])
extension_wire (not_implemented typ payload) = flatten (to_be_bytes 2 typ ∷ vector 2 payload ∷ [])

abbrev pub metadata_wire : ReportMetadata → Bytes
metadata_wire m = flatten (m.id ∷ to_be_bytes 8 m.time ∷ [])

abbrev pub ciphertext_wire : HpkeCiphertext → Bytes
ciphertext_wire c = flatten (to_be_bytes 1 c.config_id ∷ vector 2 c.enc ∷ vector 4 c.payload ∷ [])

abbrev pub report_wire : Report → Bytes
report_wire r = flatten (
    metadata_wire r.report_metadata
    ∷ vector 4 r.public_share
    ∷ ciphertext_wire r.leader_share
    ∷ ciphertext_wire r.helper_share
    ∷ [])

abbrev pub report_share_wire : ReportShare → Bytes
report_share_wire r = flatten (
    metadata_wire r.report_metadata
    ∷ vector 4 r.public_share
    ∷ ciphertext_wire r.encrypted_input_share
    ∷ [])

abbrev pub input_share_wire : PlaintextInputShare → Bytes
input_share_wire s =
    flatten (vector 2 (flatten (map extension_wire s.extensions)) ∷ vector 4 s.payload ∷ [])

pub record IsInputShare (s : PlaintextInputShare) : Type 0 where
  pub extensions : All IsExtension s.extensions
  pub extensions_fit : length (flatten (map extension_wire s.extensions)) < 256 ^ 2
  pub payload : length s.payload < 256 ^ 4

module _ {p : Prio} (laws : PrioLaws p) where
  RoundTrips-extension :
      (x : Extension)
      → IsExtension x
      → RoundTrips (encode_extension p x) (decode_extension p) x (extension_wire x)
  unfolding encode_extension decode_extension
  RoundTrips-extension taskprov h =
      RoundTrips-bind _ (RoundTrips-uint laws 2 extension_taskprov (omega arith)) (
        RoundTrips-bind _
          (RoundTrips-u16_prefixed laws done (λ _. pure tt) tt [] (omega arith) RoundTrips-done)
          RoundTrips-done)
  RoundTrips-extension (not_implemented typ payload) (typ_u16, unknown, short) =
      RoundTrips-bind _ (RoundTrips-uint laws 2 typ typ_u16) (
        rw (==_ne typ extension_taskprov unknown)
          (RoundTrips-bind _ (RoundTrips-u16_bytes laws payload short) RoundTrips-done))

  pub RoundTrips-metadata :
      (m : ReportMetadata)
      → IsMetadata m
      → RoundTrips (encode_metadata p m) (decode_metadata p) m (metadata_wire m)
  unfolding encode_metadata decode_metadata
  RoundTrips-metadata m h =
      RoundTrips-bind _ (RoundTrips-id 16 m.id h.id)
        (RoundTrips-bind _ (RoundTrips-uint laws 8 m.time h.time) RoundTrips-done)

  pub RoundTrips-ciphertext :
      (c : HpkeCiphertext)
      → IsCiphertext c
      → RoundTrips (encode_ciphertext p c) (decode_ciphertext p) c (ciphertext_wire c)
  unfolding encode_ciphertext decode_ciphertext
  RoundTrips-ciphertext c h = RoundTrips-bind _ (RoundTrips-uint laws 1 c.config_id h.config_id) (
      RoundTrips-bind _ (RoundTrips-u16_bytes laws c.enc h.enc)
        (RoundTrips-bind _ (RoundTrips-u32_bytes laws c.payload h.payload) RoundTrips-done))

  -- For every codec with the laws of `PrioLaws` and every report whose ID is 16 bytes, whose
  -- config IDs are bytes and whose time and payloads fit their fields (`IsReport`): the encoder
  -- appends exactly the bytes of its wire format to what was written before, and the decoder,
  -- wherever those bytes stand in a buffer of less than 2^63 bytes and whatever follows them,
  -- returns the value and stops behind them.
  pub RoundTrips-report :
      (r : Report) → IsReport r → RoundTrips (encode_report p r) (decode_report p) r (report_wire r)
  unfolding encode_report decode_report
  RoundTrips-report r h =
      RoundTrips-bind _ (RoundTrips-metadata r.report_metadata h.report_metadata) (
        RoundTrips-bind _ (RoundTrips-u32_bytes laws r.public_share h.public_share) (
          RoundTrips-bind _ (RoundTrips-ciphertext r.leader_share h.leader_share) (
            RoundTrips-bind _ (RoundTrips-ciphertext r.helper_share h.helper_share)
              RoundTrips-done)))

  pub RoundTrips-report_share :
      (r : ReportShare)
      → IsReportShare r
      → RoundTrips (encode_report_share p r) (decode_report_share p) r (report_share_wire r)
  unfolding encode_report_share decode_report_share
  RoundTrips-report_share r h =
      RoundTrips-bind _ (RoundTrips-metadata r.report_metadata h.report_metadata) (
        RoundTrips-bind _ (RoundTrips-u32_bytes laws r.public_share h.public_share) (
          RoundTrips-bind _ (RoundTrips-ciphertext r.encrypted_input_share h.encrypted_input_share)
            RoundTrips-done))

  extension_items :
      (xs : List Extension)
      → All IsExtension xs
      → All (IsItem (encode_extension p) (decode_extension p) extension_wire) xs
  extension_items [] h = tt
  extension_items (x ∷ xs) h =
      ((RoundTrips-extension x h.0, extension_wire_pos x), extension_items xs h.1)
    where
      extension_wire_pos : (x : Extension) → 0 < length (extension_wire x)
      extension_wire_pos taskprov = omega arith
      extension_wire_pos (not_implemented typ payload) = omega arith

  -- For every codec with the laws of `PrioLaws` and every input share whose extensions fit their
  -- fields and whose lists fit their length prefixes (`IsInputShare`): the encoder appends exactly
  -- the bytes of its wire format to what was written before, and the decoder, wherever those bytes
  -- stand in a buffer of less than 2^63 bytes and whatever follows them, returns the value and
  -- stops behind them.
  pub RoundTrips-input_share :
      (s : PlaintextInputShare)
      → IsInputShare s
      → RoundTrips (encode_input_share p s) (decode_input_share p) s (input_share_wire s)
  unfolding encode_input_share decode_input_share
  RoundTrips-input_share s h =
      RoundTrips-bind _
        (RoundTrips-items laws 2 (encode_extension p) (decode_extension p) extension_wire
          s.extensions (extension_items s.extensions h.extensions) h.extensions_fit)
        (RoundTrips-bind _ (RoundTrips-u32_bytes laws s.payload h.payload) RoundTrips-done)
