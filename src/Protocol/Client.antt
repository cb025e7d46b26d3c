-- ===== src/Protocol/Client.antt =====
-- The reports that a Client makes (crates/daphne/src/protocol/client.rs). HPKE is a parameter, and
-- so is the sharding of a measurement (`produce_input_shares`), which dispatches to the VDAFs of
-- crates/daphne/src/vdaf: it returns the public share and the two input shares. The report ID that
-- the random-number generator gives is an argument.
pub mod Consumed
use daphne.Common.{ℕ, Bool, true, false, List, []}
use daphne.Codec.Base.{Bytes, Writer, ◌>>◌}
use daphne.Codec.Prio.{Prio}
use daphne.Codec.Lengths.{encode_u32_bytes}
use daphne.Errors.{Outcome, ok, err, DapError, transition, ◌>>=◌}
use daphne.Messages.Ids.{TaskId, ReportId, encode_id}
use daphne.Messages.Report.{
  Extension, ReportMetadata, HpkeCiphertext, Report, PlaintextInputShare, encode_metadata,
  encode_input_share,
}
use daphne.Messages.Aggregation.{vdaf_prep_error}
use daphne.Messages.Hpke.{HpkeConfig}
use daphne.Task.{VdafConfig}
use daphne.Protocol.Vdaf.{VdafError, VdafResult}
use daphne.Protocol.Report.{encoding, input_share_info}
use daphne.Protocol.AggShare.{HpkeEncrypter}

-- `DapError::from_vdaf` of crates/daphne/src/error/mod.rs.
unfoldable pub from_vdaf : VdafError → DapError
from_vdaf VdafError.codec = transition vdaf_prep_error
from_vdaf VdafError.vdaf = transition vdaf_prep_error
from_vdaf (VdafError.dap e) = e

unfoldable pub of_vdaf : {A : Type 0} → VdafResult A → Outcome A
unfolding from_vdaf
of_vdaf (VdafResult.ok a) = ok a
of_vdaf (VdafResult.err e) = err (from_vdaf e)

module _ (p : Prio) where
  unfoldable pub report_aad : TaskId → ReportMetadata → Bytes → Writer
  report_aad task_id metadata public_share = do
    encode_id task_id
    encode_metadata p metadata
    encode_u32_bytes p public_share

module _ (p : Prio) (hpke_encrypt : HpkeEncrypter) where
  -- One round of the loop over the configurations.
  unfoldable pub seal_input_share :
      Bool → HpkeConfig → Bytes → List Extension → Bytes → Outcome HpkeCiphertext
  seal_input_share is_leader hpke_config aad extensions input_share = do
    encoded_input_share ← encoding (
        p.get_encoded
          (encode_input_share p (record { extensions = extensions; payload = input_share })))
    hpke_encrypt hpke_config (input_share_info p is_leader) aad encoded_input_share

  -- The two configurations, the Leader's and the Helper's, and the two input shares.
  unfoldable pub produce_report_with_extensions_for_shares :
      Bytes
      → Bytes × Bytes
      → HpkeConfig × HpkeConfig
      → ℕ
      → TaskId
      → ReportId
      → List Extension
      → Outcome Report
  unfolding seal_input_share report_aad
  produce_report_with_extensions_for_shares public_share input_shares hpke_configs time task_id
        report_id extensions =
      let metadata : ReportMetadata = record { id = report_id; time = time } in
      (do
        aad ← encoding (report_aad p task_id metadata public_share [])
        leader_share ← seal_input_share true hpke_configs.0 aad extensions input_shares.0
        helper_share ← seal_input_share false hpke_configs.1 aad extensions input_shares.1
        ok (record {
          report_metadata = metadata;
          public_share = public_share;
          leader_share = leader_share;
          helper_share = helper_share;
        }))

  module _ {DapMeasurement : Type 0}
      (produce_input_shares : VdafConfig
        → DapMeasurement
        → ReportId
        → VdafResult (Bytes × Bytes × Bytes))
      (vdaf : VdafConfig) (report_id : ReportId) where
    unfoldable pub produce_report_with_extensions :
        HpkeConfig × HpkeConfig → ℕ → TaskId → DapMeasurement → List Extension → Outcome Report
    unfolding produce_report_with_extensions_for_shares of_vdaf
    produce_report_with_extensions hpke_config_list time task_id measurement extensions = do
      shares ← of_vdaf (produce_input_shares vdaf measurement report_id)
      produce_report_with_extensions_for_shares shares.0 (shares.1, shares.2) hpke_config_list time
          task_id report_id extensions

    unfoldable pub produce_report :
        HpkeConfig × HpkeConfig → ℕ → TaskId → DapMeasurement → Outcome Report
    unfolding produce_report_with_extensions
    produce_report hpke_config_list time task_id measurement =
        produce_report_with_extensions hpke_config_list time task_id measurement []
