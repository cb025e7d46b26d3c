-- ===== src/Protocol/Report.antt =====
-- The states of a report in an aggregation job (crates/daphne/src/protocol/aggregator.rs).
pub mod Extensions
pub mod Ready
pub mod Metadata
use daphne.Common.{
  ℕ, Bool, true, false, not, ◌&&◌, Option, none, some, List, [], ◌∷◌, ◌++◌, ◌==◌, ltb, leb,
  if◌then◌else◌,
}
use daphne.Codec.Base as Codec
use daphne.Codec.Base.{Bytes, Writer, ◌>>◌}
use daphne.Codec.Prio.{Prio}
use daphne.Codec.Lengths.{encode_u32_bytes}
use daphne.Errors.{Outcome, ok, err, panic, DapError, fatal, abort, transition, ◌>>=◌}
use daphne.Messages.Ids.{TaskId, ReportId, encode_id}
use daphne.Messages.Report.{
  Extension, taskprov, not_implemented, type_code, ReportMetadata, HpkeCiphertext, ReportShare,
  PlaintextInputShare, encode_metadata, decode_input_share,
}
use daphne.Messages.Aggregation.{
  TransitionFailure, task_expired, report_dropped, report_too_early, invalid_message,
  vdaf_prep_error,
}
use daphne.Task.{DapTaskConfig}
use daphne.Share.{Crypto}
use daphne.Protocol.Framing.{PingPongMessageType, initialize, decode_ping_pong_framed}
use daphne.Protocol.Vdaf.{Vdaf, VdafResult}

-- `map_err(DapError::encoding)`
abbrev pub encoding {ℓ} : {A : Type ℓ} → Codec.Result A → Outcome A
encoding (Codec.ok a) = ok a
encoding (Codec.err e) = err fatal
encoding Codec.panic = panic

-- "dap-09 input share"
abbrev pub ctx_input_share : Bytes
ctx_input_share =
    100 ∷ 97 ∷ 112 ∷ 45 ∷ 48 ∷ 57 ∷ 32 ∷ 105 ∷ 110 ∷ 112 ∷ 117 ∷ 116 ∷ 32 ∷ 115 ∷ 104 ∷ 97 ∷ 114
    ∷ 101 ∷ []

abbrev pub ctx_role_client : ℕ
ctx_role_client = 1

abbrev pub ctx_role_leader : ℕ
ctx_role_leader = 2

abbrev pub ctx_role_helper : ℕ
ctx_role_helper = 3

-- The metadata, the public share, the input share and the peer's preparation share, which only the
-- Helper has.
pub data EarlyReportStateConsumed : Type 0 where
  ready : ReportMetadata → Bytes → Bytes → Option Bytes → EarlyReportStateConsumed
  rejected : ReportMetadata → TransitionFailure → EarlyReportStateConsumed

pub record TimeRange : Type 0 where
  pub start : ℕ
  pub end : ℕ

-- `HpkeDecrypter::hpke_decrypt`: the task, the info string, the associated data, the ciphertext.
abbrev pub HpkeDecrypter : Type 0
HpkeDecrypter = TaskId → Bytes → Bytes → HpkeCiphertext → Outcome Bytes

-- `seen.insert` returns false for a code that is there.
contains : ℕ → List ℕ → Bool
contains code [] = false
contains code (x ∷ xs) = if x == code then true else contains code xs

-- The loop over the extensions, and the check behind it. A rejection is false.
check_extensions_from : Bool → List ℕ → Bool → List Extension → Bool
unfolding contains type_code
check_extensions_from is_taskprov seen indicated [] =
    if is_taskprov && not indicated then false else true
check_extensions_from is_taskprov seen indicated (taskprov ∷ extensions) =
    if contains (type_code taskprov) seen
    then false
    else if is_taskprov
    then check_extensions_from is_taskprov (type_code taskprov ∷ seen) true extensions
    else false
check_extensions_from is_taskprov seen indicated (not_implemented typ payload ∷ extensions) = false

unfoldable pub check_extensions : Bool → List Extension → Bool
unfolding check_extensions_from
check_extensions is_taskprov extensions = check_extensions_from is_taskprov [] false extensions

module _ (p : Prio) where
  abbrev pub input_share_info : Bool → Bytes
  input_share_info is_leader =
      ctx_input_share
      ++ (ctx_role_client ∷ (if is_leader then ctx_role_leader else ctx_role_helper) ∷ [])

  unfoldable pub input_share_aad : TaskId → ReportShare → Writer
  input_share_aad task_id r = do
    encode_id task_id
    encode_metadata p r.report_metadata
    encode_u32_bytes p r.public_share

  -- `Option::map` and `transpose`
  unfoldable pub peer_prep_share_of : Option Bytes → Codec.Result (Option Bytes)
  peer_prep_share_of none = Codec.ok none
  peer_prep_share_of (some payload) = elim (decode_ping_pong_framed p payload initialize) [
    | Codec.ok share ↦ Codec.ok (some share)
    | Codec.err e ↦ Codec.err e
    | Codec.panic ↦ Codec.panic
  ]

  consume_frame :
      ReportShare → Bytes → Codec.Result (Option Bytes) → Outcome EarlyReportStateConsumed
  consume_frame r input_share (Codec.ok peer_prep_share) =
      ok (ready r.report_metadata r.public_share input_share peer_prep_share)
  consume_frame r input_share (Codec.err e) = ok (rejected r.report_metadata vdaf_prep_error)
  consume_frame r input_share Codec.panic = panic

  consume_input_share :
      DapTaskConfig
      → ReportShare
      → Option Bytes
      → Codec.Result PlaintextInputShare
      → Outcome EarlyReportStateConsumed
  unfolding consume_frame check_extensions peer_prep_share_of
  consume_input_share t r prep_init_payload (Codec.ok s) =
      if check_extensions t.method_is_taskprov s.extensions
      then consume_frame r s.payload (peer_prep_share_of prep_init_payload)
      else ok (rejected r.report_metadata invalid_message)
  consume_input_share t r prep_init_payload (Codec.err e) =
      ok (rejected r.report_metadata invalid_message)
  consume_input_share t r prep_init_payload Codec.panic = panic

  consume_decrypted :
      DapTaskConfig → ReportShare → Option Bytes → Outcome Bytes → Outcome EarlyReportStateConsumed
  unfolding consume_input_share
  consume_decrypted t r prep_init_payload (ok encoded_input_share) =
      consume_input_share t r prep_init_payload
        (p.get_decoded PlaintextInputShare (decode_input_share p) encoded_input_share)
  consume_decrypted t r prep_init_payload (err (transition failure)) =
      ok (rejected r.report_metadata failure)
  consume_decrypted t r prep_init_payload (err fatal) = err fatal
  consume_decrypted t r prep_init_payload (err (abort a)) = err (abort a)
  consume_decrypted t r prep_init_payload panic = panic

  -- `EarlyReportStateConsumed::consume`
  unfoldable pub consume :
      HpkeDecrypter
      → TimeRange
      → Bool
      → TaskId
      → DapTaskConfig
      → ReportShare
      → Option Bytes
      → Outcome EarlyReportStateConsumed
  unfolding consume_decrypted
  consume hpke_decrypt valid_report_range is_leader task_id t r prep_init_payload =
      if leb t.not_after r.report_metadata.time
      then ok (rejected r.report_metadata task_expired)
      else if ltb r.report_metadata.time valid_report_range.start
      then ok (rejected r.report_metadata report_dropped)
      else if ltb valid_report_range.end r.report_metadata.time
      then ok (rejected r.report_metadata report_too_early)
      else (do
        aad ← encoding (input_share_aad task_id r [])
        consume_decrypted t r prep_init_payload
            (hpke_decrypt task_id (input_share_info is_leader) aad r.encrypted_input_share))

pub data EarlyReportStateInitialized {c : Crypto} (v : Vdaf c) : Type 0 where
  ready :
      ReportMetadata
      → Bytes
      → Option Bytes
      → v.VdafPrepShare
      → v.VdafPrepState
      → EarlyReportStateInitialized v
  rejected : ReportMetadata → TransitionFailure → EarlyReportStateInitialized v

module _ {c : Crypto} (v : Vdaf c) where
  initialized :
      ReportMetadata
      → Bytes
      → Option Bytes
      → VdafResult (v.VdafPrepState × v.VdafPrepShare)
      → EarlyReportStateInitialized v
  initialized metadata public_share peer (VdafResult.ok (prep_state, prep_share)) =
      EarlyReportStateInitialized.ready metadata public_share peer prep_share prep_state
  initialized metadata public_share peer (VdafResult.err e) =
      EarlyReportStateInitialized.rejected metadata vdaf_prep_error

  -- `EarlyReportStateInitialized::initialize`, which always returns `Ok`.
  unfoldable pub initialize_report : Bool → EarlyReportStateConsumed → EarlyReportStateInitialized v
  unfolding initialized
  initialize_report is_leader
        (EarlyReportStateConsumed.ready metadata public_share input_share peer) =
      initialized metadata public_share peer
        (v.prep_init is_leader metadata.id public_share input_share)
  initialize_report is_leader (EarlyReportStateConsumed.rejected metadata failure) =
      EarlyReportStateInitialized.rejected metadata failure

abbrev pub consumed_metadata : EarlyReportStateConsumed → ReportMetadata
consumed_metadata (EarlyReportStateConsumed.ready metadata _ _ _) = metadata
consumed_metadata (EarlyReportStateConsumed.rejected metadata _) = metadata

abbrev pub initialized_metadata :
    {c : Crypto} {v : Vdaf c} → EarlyReportStateInitialized v → ReportMetadata
initialized_metadata (EarlyReportStateInitialized.ready metadata _ _ _ _) = metadata
initialized_metadata (EarlyReportStateInitialized.rejected metadata _) = metadata
