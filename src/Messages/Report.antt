-- ===== src/Messages/Report.antt =====
-- Reports, their metadata, extensions and ciphertexts (crates/daphne/src/messages/mod.rs).
pub mod RoundTrip
use daphne.Common.{ℕ, ◌^◌, ◌<◌, ◌≢◌, ◌≡◌, List, All, ◌==◌, if◌then◌else◌, length, flatten, map}
use daphne.Codec.Base.{Bytes, Writer, Reader, ◌>>◌, done, ◌>>=◌, pure}
use daphne.Codec.Prio.{Prio}
use daphne.Codec.Lengths.{
  encode_u16_bytes, decode_u16_bytes, encode_u32_bytes, decode_u32_bytes, encode_u16_prefixed,
  decode_u16_prefixed,
}
use daphne.Messages.Ids.{ReportId, encode_id, decode_id}

abbrev pub extension_taskprov : ℕ
extension_taskprov = 0xff00

pub data Extension : Type 0 where
  taskprov : Extension
  not_implemented : ℕ → Bytes → Extension

unfoldable pub type_code : Extension → ℕ
type_code taskprov = extension_taskprov
type_code (not_implemented typ payload) = typ

pub record ReportMetadata : Type 0 where
  pub id : ReportId
  pub time : ℕ

pub record HpkeCiphertext : Type 0 where
  pub config_id : ℕ
  pub enc : Bytes
  pub payload : Bytes

-- The array of two ciphertexts, the Leader's and the Helper's.
pub record Report : Type 0 where
  pub report_metadata : ReportMetadata
  pub public_share : Bytes
  pub leader_share : HpkeCiphertext
  pub helper_share : HpkeCiphertext

pub record ReportShare : Type 0 where
  pub report_metadata : ReportMetadata
  pub public_share : Bytes
  pub encrypted_input_share : HpkeCiphertext

pub record PlaintextInputShare : Type 0 where
  pub extensions : List Extension
  pub payload : Bytes

module _ (p : Prio) where
  unfoldable pub encode_extension : Extension → Writer
  encode_extension taskprov = do
    p.encode_uint 2 extension_taskprov
    encode_u16_prefixed p done
    done
  encode_extension (not_implemented typ payload) = do
    p.encode_uint 2 typ
    encode_u16_bytes p payload
    done

  unfoldable pub decode_extension : Reader Extension
  decode_extension = do
    typ ← p.decode_uint 2
    if typ == extension_taskprov
        then (do _ ← decode_u16_prefixed p {O = Unit {0}} (λ len. pure tt); pure taskprov)
        else (do payload ← decode_u16_bytes p; pure (not_implemented typ payload))

  unfoldable pub encode_metadata : ReportMetadata → Writer
  encode_metadata m = do encode_id m.id; p.encode_uint 8 m.time; done

  unfoldable pub decode_metadata : Reader ReportMetadata
  decode_metadata = do
    id ← decode_id 16
    time ← p.decode_uint 8
    pure (record { id = id; time = time })

  unfoldable pub encode_ciphertext : HpkeCiphertext → Writer
  encode_ciphertext c = do
    p.encode_uint 1 c.config_id
    encode_u16_bytes p c.enc
    encode_u32_bytes p c.payload
    done

  unfoldable pub decode_ciphertext : Reader HpkeCiphertext
  decode_ciphertext = do
    config_id ← p.decode_uint 1
    enc ← decode_u16_bytes p
    payload ← decode_u32_bytes p
    pure (record { config_id = config_id; enc = enc; payload = payload })

  unfoldable pub encode_report : Report → Writer
  encode_report r = do
    encode_metadata r.report_metadata
    encode_u32_bytes p r.public_share
    encode_ciphertext r.leader_share
    encode_ciphertext r.helper_share
    done

  unfoldable pub decode_report : Reader Report
  decode_report = do
    report_metadata ← decode_metadata
    public_share ← decode_u32_bytes p
    leader_share ← decode_ciphertext
    helper_share ← decode_ciphertext
    pure (record {
      report_metadata = report_metadata;
      public_share = public_share;
      leader_share = leader_share;
      helper_share = helper_share;
    })

  unfoldable pub encode_report_share : ReportShare → Writer
  encode_report_share r = do
    encode_metadata r.report_metadata
    encode_u32_bytes p r.public_share
    encode_ciphertext r.encrypted_input_share
    done

  unfoldable pub decode_report_share : Reader ReportShare
  decode_report_share = do
    report_metadata ← decode_metadata
    public_share ← decode_u32_bytes p
    encrypted_input_share ← decode_ciphertext
    pure (record {
      report_metadata = report_metadata;
      public_share = public_share;
      encrypted_input_share = encrypted_input_share;
    })

  unfoldable pub encode_input_share : PlaintextInputShare → Writer
  encode_input_share s = do
    p.encode_items Extension 2 encode_extension s.extensions
    encode_u32_bytes p s.payload
    done

  unfoldable pub decode_input_share : Reader PlaintextInputShare
  decode_input_share = do
    extensions ← p.decode_items Extension 2 decode_extension
    payload ← decode_u32_bytes p
    pure (record { extensions = extensions; payload = payload })
