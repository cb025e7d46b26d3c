-- ===== src/Tests/Client.antt =====
-- The theorems about the reports of a Client and the Collector's result at concrete ones. Here a
-- ciphertext holds the plaintext, and the result of unsharding is the two aggregate shares.
use daphne.Common.{◌≡◌, refl, true, false, none, some, List, [], ◌∷◌, replicate, arith, ℕ}
use daphne.Codec.Base as Codec
use daphne.Codec.Base.{Bytes}
use daphne.Errors.{ok}
use daphne.Messages.Batch.{BatchSelector}
use daphne.Messages.Report.{HpkeCiphertext, Report}
use daphne.Task.{VdafConfig}
use daphne.Protocol.Vdaf.{VdafResult}
use daphne.Protocol.Report.{ready, consume}
use daphne.Protocol.Init.{DapAggregationParam}
use daphne.Protocol.AggShare.{produce_encrypted_agg_share}
use daphne.Protocol.Client.{produce_report_with_extensions_for_shares}
use daphne.Protocol.Client.Consumed.{share_for, Opens, produce_report-consume}
use daphne.Protocol.Collector.{consume_encrypted_agg_shares, or_fatal}
use daphne.Protocol.Collector.Opened.{IsEncoded, consume_encrypted_agg_shares-unshard}
use daphne.Tests.Reference.{reference, reference_laws}
use daphne.Tests.Protocol.{at_noon}
use daphne.Tests.Init.{no_hpke, today}
use daphne.Tests.AggShare.{raw, open_box, helper_share}
use daphne.Tests.Task.{hourly, two_hours, collector_config}

abbrev sealed : Bytes → HpkeCiphertext
sealed plaintext = record { config_id = 7; enc = []; payload = plaintext }

open_box-Opens : Opens open_box collector_config no_hpke
open_box-Opens task_id info aad plaintext c e =
    let same : sealed plaintext ≡ c = cc in rw (← same) refl

-- No extension, and the input share.
abbrev input : Bytes → Bytes
input share = 0 ∷ 0 ∷ 0 ∷ 0 ∷ 0 ∷ 2 ∷ share

abbrev noon_report : Report
noon_report = record {
  report_metadata = at_noon;
  public_share = 6 ∷ [];
  leader_share = sealed (input (1 ∷ 0 ∷ []));
  helper_share = sealed (input (2 ∷ 0 ∷ []));
}

noon_report_produced :
    produce_report_with_extensions_for_shares reference open_box
      (6 ∷ [])
      (1 ∷ 0 ∷ [], 2 ∷ 0 ∷ [])
      (collector_config, collector_config)
      43200
      (replicate 32 9)
      (replicate 16 1)
      []
    ≡ ok noon_report
unfolding produce_report_with_extensions_for_shares Codec.◌>>◌ daphne.Messages.Ids.encode_id
    Codec.extend Codec.done daphne.Messages.Report.encode_metadata reference
    daphne.Codec.Lengths.encode_u32_bytes daphne.Messages.Report.encode_input_share
noon_report_produced = refl

framed :
    daphne.Protocol.Report.peer_prep_share_of reference (some (0 ∷ 0 ∷ 0 ∷ 0 ∷ 1 ∷ 6 ∷ []))
    ≡ Codec.ok (some (6 ∷ []))
unfolding daphne.Protocol.Report.peer_prep_share_of daphne.Protocol.Framing.decode_ping_pong_framed
    Codec.◌>>=◌ reference
framed = refl

produce_report-consume_example :
    (consume reference no_hpke today true (replicate 32 9) hourly (share_for true noon_report) none
      ≡ ok (ready at_noon (6 ∷ []) (1 ∷ 0 ∷ []) none))
    × (consume reference no_hpke today false
          (replicate 32 9)
          hourly
          (share_for false noon_report)
          (some (0 ∷ 0 ∷ 0 ∷ 0 ∷ 1 ∷ 6 ∷ []))
        ≡ ok (ready at_noon (6 ∷ []) (2 ∷ 0 ∷ []) (some (6 ∷ []))))
produce_report-consume_example =
    produce_report-consume reference_laws open_box collector_config collector_config no_hpke no_hpke
      today today (replicate 32 9) hourly at_noon (6 ∷ []) (1 ∷ 0 ∷ []) (2 ∷ 0 ∷ [])
      (0 ∷ 0 ∷ 0 ∷ 0 ∷ 1 ∷ 6 ∷ []) (6 ∷ []) noon_report open_box-Opens open_box-Opens refl
      (record { id = refl; time = omega arith }) (omega arith) (omega arith) (omega arith)
      (omega arith) (omega arith, omega arith) (omega arith, omega arith) framed
      noon_report_produced

abbrev both : VdafConfig → DapAggregationParam → ℕ → List Bytes → VdafResult (List Bytes)
both = λ vdaf agg_param report_count shares. VdafResult.ok shares

leader_sealed :
    produce_encrypted_agg_share reference raw open_box true collector_config
      (replicate 32 9)
      (BatchSelector.time_interval two_hours)
      DapAggregationParam.empty
      helper_share
    ≡ ok (sealed (1 ∷ 0 ∷ []))
unfolding produce_encrypted_agg_share reference Codec.extend Codec.◌>>◌
    daphne.Messages.Ids.encode_id Codec.done daphne.Codec.Lengths.encode_prefixed
    daphne.Protocol.Init.encode_agg_param daphne.Messages.Batch.encode_batch_sel
    daphne.Messages.Batch.encode_interval
leader_sealed = refl

helper_sealed :
    produce_encrypted_agg_share reference raw open_box false collector_config
      (replicate 32 9)
      (BatchSelector.time_interval two_hours)
      DapAggregationParam.empty
      helper_share
    ≡ ok (sealed (1 ∷ 0 ∷ []))
unfolding produce_encrypted_agg_share reference Codec.extend Codec.◌>>◌
    daphne.Messages.Ids.encode_id Codec.done daphne.Codec.Lengths.encode_prefixed
    daphne.Protocol.Init.encode_agg_param daphne.Messages.Batch.encode_batch_sel
    daphne.Messages.Batch.encode_interval
helper_sealed = refl

consume_encrypted_agg_shares-unshard_example :
    (leader_data helper_data : Bytes) × IsEncoded reference raw helper_share leader_data
    × IsEncoded reference raw helper_share helper_data
    × (consume_encrypted_agg_shares reference no_hpke both VdafConfig.prio3
          (replicate 32 9)
          (BatchSelector.time_interval two_hours)
          12
          DapAggregationParam.empty
          (sealed (1 ∷ 0 ∷ []) ∷ sealed (1 ∷ 0 ∷ []) ∷ [])
        ≡ or_fatal (VdafResult.ok (leader_data ∷ helper_data ∷ [])))
consume_encrypted_agg_shares-unshard_example =
    consume_encrypted_agg_shares-unshard reference raw open_box collector_config no_hpke both
      VdafConfig.prio3 (replicate 32 9) (BatchSelector.time_interval two_hours) 12
      DapAggregationParam.empty helper_share helper_share (sealed (1 ∷ 0 ∷ []))
      (sealed (1 ∷ 0 ∷ [])) open_box-Opens leader_sealed helper_sealed
