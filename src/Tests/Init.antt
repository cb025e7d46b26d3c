-- ===== src/Tests/Init.antt =====
-- The theorems about the request of an aggregation job at concrete reports. Here a ciphertext holds
-- the plaintext, and reports are initialized one by one.
use daphne.Common.{◌≡◌, ◌↔◌, ◌<◌, ◌≤◌, refl, false, some, [], ◌∷◌, map, replicate, arith}
use daphne.Codec.Base as Codec
use daphne.Codec.Base.{Bytes}
use daphne.Errors.{ok}
use daphne.Messages.Report.{ReportMetadata, HpkeCiphertext, Report, ReportShare}
use daphne.Messages.Aggregation.{AggregationJobInitReq}
use daphne.Protocol.Report.{
  HpkeDecrypter, TimeRange, EarlyReportStateConsumed, ready, consume, consumed_metadata,
  initialize_report, initialized_metadata, input_share_info,
}
use daphne.Protocol.Report.Metadata.{initialize_report-metadata}
use daphne.Protocol.Report.Ready.{consume_iff, IsDecrypted}
use daphne.Protocol.Job.{DapAggregationJobState}
use daphne.Protocol.Init.{
  ReplayProtection, DapReportInitializer, empty, consume_agg_job_req, produce_agg_job_req,
}
use daphne.Protocol.Init.Distinct.{IsDistinct, KeepsReports, consume_agg_job_req-IsDistinct}
use daphne.Protocol.Init.Request.{init_key, state_key, produce_agg_job_req-IsDistinct}
use daphne.Tests.Reference.{reference, reference_laws}
use daphne.Tests.Protocol.{toy_vdaf, at_noon, later, by_time}
use daphne.Tests.Task.{hourly}

abbrev pub no_hpke : HpkeDecrypter
no_hpke = λ task_id info aad c. ok c.payload

abbrev pub today : TimeRange
today = record { start = 0; end = 86400 }

abbrev one_by_one : DapReportInitializer toy_vdaf
one_by_one = record {
  valid_report_time_range = today;
  initialize_reports =
      λ is_leader t agg_param consumed. ok (map (initialize_report toy_vdaf is_leader) consumed);
}

one_by_one-KeepsReports : KeepsReports reference toy_vdaf no_hpke one_by_one (replicate 32 9) hourly
one_by_one-KeepsReports is_leader agg_param [] = refl
one_by_one-KeepsReports is_leader agg_param (x ∷ xs) = rw (
  initialize_report-metadata toy_vdaf is_leader x,
  one_by_one-KeepsReports is_leader agg_param xs,
)

-- No extension, and the payload 1, 0.
abbrev sealed : HpkeCiphertext
sealed = record { config_id = 1; enc = []; payload = 0 ∷ 0 ∷ 0 ∷ 0 ∷ 0 ∷ 2 ∷ 1 ∷ 0 ∷ [] }

abbrev share_of : ReportMetadata → ReportShare
share_of m = record { report_metadata = m; public_share = 6 ∷ []; encrypted_input_share = sealed }

abbrev payload : Bytes
payload = 0 ∷ 0 ∷ 0 ∷ 0 ∷ 1 ∷ 6 ∷ []

consume_iff_example :
    (consume reference no_hpke today false (replicate 32 9) hourly (share_of at_noon) (some payload)
      ≡ ok (ready at_noon (6 ∷ []) (1 ∷ 0 ∷ []) (some (6 ∷ []))))
    ↔ ((43200 < 1000000)
        × (0 ≤ 43200)
        × (43200 ≤ 86400)
        × IsDecrypted reference hourly
            (share_of at_noon)
            (some payload)
            at_noon
            (6 ∷ [])
            (1 ∷ 0 ∷ [])
            (some (6 ∷ []))
            (ok sealed.payload))
consume_iff_example =
    consume_iff reference_laws no_hpke today false (replicate 32 9) hourly (share_of at_noon)
      (some payload) at_noon (6 ∷ []) (1 ∷ 0 ∷ []) (some (6 ∷ [])) refl
      (record { id = refl; time = omega arith }) (omega arith)

abbrev req : AggregationJobInitReq
req = record {
  agg_param = [];
  part_batch_sel = by_time;
  prep_inits =
      record { report_share = share_of at_noon; payload = payload }
      ∷ record { report_share = share_of later; payload = payload }
      ∷ [];
}

req_consumed :
    consume_agg_job_req reference toy_vdaf no_hpke one_by_one
      (replicate 32 9)
      hourly
      ReplayProtection.enabled
      req
    ≡ ok (
        map (initialize_report toy_vdaf false) (
          ready at_noon (6 ∷ []) (1 ∷ 0 ∷ []) (some (6 ∷ []))
          ∷ ready later (6 ∷ []) (1 ∷ 0 ∷ []) (some (6 ∷ []))
          ∷ []))
unfolding consume_agg_job_req consume daphne.Protocol.Report.input_share_aad Codec.◌>>◌
    daphne.Messages.Ids.encode_id Codec.extend Codec.done daphne.Messages.Report.encode_metadata
    reference daphne.Codec.Lengths.encode_u32_bytes daphne.Messages.Report.decode_input_share
    daphne.Codec.Lengths.decode_u32_bytes Codec.read_exact Codec.pure
    daphne.Protocol.Framing.decode_ping_pong_framed
req_consumed = refl

consume_agg_job_req-IsDistinct_example :
    IsDistinct (replicate 16 1 ∷ replicate 16 2 ∷ [])
    × (map initialized_metadata (
          map (initialize_report toy_vdaf false) (
            ready at_noon (6 ∷ []) (1 ∷ 0 ∷ []) (some (6 ∷ []))
            ∷ ready later (6 ∷ []) (1 ∷ 0 ∷ []) (some (6 ∷ []))
            ∷ []))
        ≡ at_noon ∷ later ∷ [])
consume_agg_job_req-IsDistinct_example =
    consume_agg_job_req-IsDistinct reference toy_vdaf no_hpke one_by_one (replicate 32 9) hourly req
      (map (initialize_report toy_vdaf false) (
        ready at_noon (6 ∷ []) (1 ∷ 0 ∷ []) (some (6 ∷ []))
        ∷ ready later (6 ∷ []) (1 ∷ 0 ∷ []) (some (6 ∷ []))
        ∷ []))
      one_by_one-KeepsReports req_consumed

abbrev report_of : ReportMetadata → Report
report_of m = record {
  report_metadata = m;
  public_share = 6 ∷ [];
  leader_share = sealed;
  helper_share = sealed;
}

abbrev state : DapAggregationJobState toy_vdaf
state = record {
  seq =
      record { prep_state = 1 ∷ 0 ∷ []; time = 43200; report_id = replicate 16 1 }
      ∷ record { prep_state = 1 ∷ 0 ∷ []; time = 43300; report_id = replicate 16 2 }
      ∷ [];
  part_batch_sel = by_time;
}

req_produced :
    produce_agg_job_req reference toy_vdaf no_hpke one_by_one
      (replicate 32 9)
      hourly
      ReplayProtection.enabled
      by_time
      empty
      (report_of at_noon ∷ report_of later ∷ [])
    ≡ ok (state, req)
unfolding produce_agg_job_req consume daphne.Protocol.Report.input_share_aad Codec.◌>>◌
    daphne.Messages.Ids.encode_id Codec.extend Codec.done daphne.Messages.Report.encode_metadata
    reference daphne.Codec.Lengths.encode_u32_bytes daphne.Messages.Report.decode_input_share
    daphne.Codec.Lengths.decode_u32_bytes Codec.read_exact Codec.pure
    daphne.Protocol.Framing.decode_ping_pong_framed initialize_report
    daphne.Protocol.Init.encode_agg_param
req_produced = refl

produce_agg_job_req-IsDistinct_example :
    IsDistinct (replicate 16 1 ∷ replicate 16 2 ∷ [])
    × (map state_key state.seq ≡ map init_key req.prep_inits)
produce_agg_job_req-IsDistinct_example =
    produce_agg_job_req-IsDistinct reference toy_vdaf no_hpke one_by_one (replicate 32 9) hourly
      by_time empty (report_of at_noon ∷ report_of later ∷ []) state req one_by_one-KeepsReports
      req_produced
