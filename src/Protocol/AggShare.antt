-- ===== src/Protocol/AggShare.antt =====
-- The encryption of an aggregate share (`produce_encrypted_agg_share` in
-- crates/daphne/src/protocol/aggregator.rs). HPKE and the encoding of the field vectors, of the crate
-- `prio`, are parameters.
use daphne.Common.{ℕ, Bool, Option, none, some, [], ◌∷◌, ◌++◌, if◌then◌else◌}
use daphne.Codec.Base.{Bytes, Writer, ◌>>◌}
use daphne.Codec.Prio.{Prio}
use daphne.Codec.Lengths.{encode_u32_prefixed}
use daphne.Errors.{Outcome, ok, err, fatal, ◌>>=◌}
use daphne.Messages.Ids.{TaskId, encode_id}
use daphne.Messages.Batch.{BatchSelector, encode_batch_sel}
use daphne.Messages.Report.{HpkeCiphertext}
use daphne.Messages.Hpke.{HpkeConfig}
use daphne.Share.{Crypto, VdafAggregateShare, DapAggregateShare}
use daphne.Protocol.Report.{encoding, ctx_role_leader, ctx_role_helper}
use daphne.Protocol.Init.{DapAggregationParam, encode_agg_param}

-- "dap-09 aggregate share"
abbrev pub ctx_agg_share : Bytes
ctx_agg_share =
    100 ∷ 97 ∷ 112 ∷ 45 ∷ 48 ∷ 57 ∷ 32 ∷ 97 ∷ 103 ∷ 103 ∷ 114 ∷ 101 ∷ 103 ∷ 97 ∷ 116 ∷ 101 ∷ 32
    ∷ 115 ∷ 104 ∷ 97 ∷ 114 ∷ 101 ∷ []

abbrev pub ctx_role_collector : ℕ
ctx_role_collector = 0

-- `HpkeConfig::encrypt`: the configuration, the info string, the associated data, the plaintext.
abbrev pub HpkeEncrypter : Type 0
HpkeEncrypter = HpkeConfig → Bytes → Bytes → Bytes → Outcome HpkeCiphertext

module _ (p : Prio) {c : Crypto} (encode_agg_data : VdafAggregateShare c → Writer)
    (hpke_encrypt : HpkeEncrypter) where
  abbrev pub agg_share_info : Bool → Bytes
  agg_share_info is_leader =
      ctx_agg_share
      ++ ((if is_leader then ctx_role_leader else ctx_role_helper) ∷ ctx_role_collector ∷ [])

  unfoldable pub agg_share_aad : TaskId → DapAggregationParam → BatchSelector → Writer
  agg_share_aad task_id agg_param batch_sel = do
    encode_id task_id
    encode_u32_prefixed p (encode_agg_param agg_param)
    encode_batch_sel p batch_sel

  -- `ok_or_else`
  unfoldable pub agg_data_or : Option (VdafAggregateShare c) → Outcome (VdafAggregateShare c)
  agg_data_or (some agg_data) = ok agg_data
  agg_data_or none = err fatal

  unfoldable pub produce_encrypted_agg_share :
      Bool
      → HpkeConfig
      → TaskId
      → BatchSelector
      → DapAggregationParam
      → DapAggregateShare c
      → Outcome HpkeCiphertext
  unfolding agg_data_or agg_share_aad
  produce_encrypted_agg_share is_leader hpke_config task_id batch_sel agg_param agg_share = do
    agg_data ← agg_data_or agg_share.agg_data
    agg_share_data ← encoding (p.get_encoded (encode_agg_data agg_data))
    aad ← encoding (agg_share_aad task_id agg_param batch_sel [])
    hpke_encrypt hpke_config (agg_share_info is_leader) aad agg_share_data
