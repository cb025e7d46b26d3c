-- ===== src/Protocol/Collector.antt =====
-- The Collector (crates/daphne/src/protocol/collector.rs). HPKE is a parameter, and so is the
-- unsharding of the aggregate shares, which dispatches to the VDAFs of crates/daphne/src/vdaf.
pub mod Opened
use daphne.Common.{
  ℕ, suc, ◌+◌, Bool, true, false, not, List, [], ◌∷◌, ◌++◌, ◌==◌, length, if◌then◌else◌,
}
use daphne.Codec.Base.{Bytes, Writer, ◌>>◌}
use daphne.Codec.Prio.{Prio}
use daphne.Codec.Lengths.{encode_u32_prefixed}
use daphne.Errors.{Outcome, ok, err, panic, fatal, ◌>>=◌}
use daphne.Messages.Ids.{TaskId, encode_id}
use daphne.Messages.Batch.{BatchSelector, encode_batch_sel}
use daphne.Messages.Report.{HpkeCiphertext}
use daphne.Task.{VdafConfig}
use daphne.Protocol.Vdaf.{VdafResult}
use daphne.Protocol.Report.{encoding, HpkeDecrypter, ctx_role_leader, ctx_role_helper}
use daphne.Protocol.Init.{DapAggregationParam, encode_agg_param}
use daphne.Protocol.AggShare.{ctx_agg_share, ctx_role_collector}

-- `map_err(|e| fatal_error!(…))`
unfoldable pub or_fatal : {A : Type 0} → VdafResult A → Outcome A
or_fatal (VdafResult.ok a) = ok a
or_fatal (VdafResult.err e) = err fatal

module _ (p : Prio) where
  unfoldable pub collector_aad : TaskId → DapAggregationParam → BatchSelector → Writer
  collector_aad task_id agg_param batch_sel = do
    encode_id task_id
    encode_u32_prefixed p (encode_agg_param agg_param)
    encode_batch_sel p batch_sel

abbrev pub collector_info : ℕ → Bytes
collector_info i =
    ctx_agg_share
    ++ ((if i == 0 then ctx_role_leader else ctx_role_helper) ∷ ctx_role_collector ∷ [])

module _ (hpke_decrypt : HpkeDecrypter) (task_id : TaskId) (aad : Bytes) where
  -- The loop over the ciphertexts, from the index `i` on.
  unfoldable pub decrypt_shares : ℕ → List HpkeCiphertext → Outcome (List Bytes)
  decrypt_shares i [] = ok []
  decrypt_shares i (ciphertext ∷ ciphertexts) = do
    agg_share_data ← hpke_decrypt task_id (collector_info i) aad ciphertext
    agg_shares ← decrypt_shares (i + 1) ciphertexts
    ok (agg_share_data ∷ agg_shares)

module _ (p : Prio) (hpke_decrypt : HpkeDecrypter) {DapAggregateResult : Type 0}
    (unshard : VdafConfig → DapAggregationParam → ℕ → List Bytes → VdafResult DapAggregateResult)
    (vdaf : VdafConfig) (task_id : TaskId) where
  unfoldable pub consume_encrypted_agg_shares :
      BatchSelector → ℕ → DapAggregationParam → List HpkeCiphertext → Outcome DapAggregateResult
  unfolding decrypt_shares collector_aad or_fatal
  consume_encrypted_agg_shares batch_sel report_count agg_param encrypted_agg_shares =
      if not (length encrypted_agg_shares == 2) then err fatal else (do
        aad ← encoding (collector_aad p task_id agg_param batch_sel [])
        agg_shares ← decrypt_shares hpke_decrypt task_id aad 0 encrypted_agg_shares
        if not (length agg_shares == length encrypted_agg_shares)
            then err fatal
            else or_fatal (unshard vdaf agg_param report_count agg_shares))
