-- ===== src/Tests/Protocol.antt =====
-- The theorems about aggregation jobs at concrete reports. Here a VDAF's output share is the input
-- share itself, and preparation fails if the preparation shares have different lengths.
use daphne.Common.{
  zip_xor, ◌≡◌, ◌↔◌, ◌<◌, ◌^◌, refl, some, List, [], ◌∷◌, map, All, ◌==◌, if◌then◌else◌, length,
  replicate, arith,
}
use daphne.Codec.Base as Codec
use daphne.Codec.Base.{Bytes, extend}
use daphne.Codec.Lengths.{encode_u32_bytes}
use daphne.Codec.RoundTrip.{vector}
use daphne.Errors.{ok}
use daphne.Messages.Batch.{PartialBatchSelector}
use daphne.Messages.Report.{ReportMetadata}
use daphne.Messages.Aggregation.{
  continued, failed, vdaf_prep_error, report_too_early, AggregationJobResp,
}
use daphne.Task.{bucket_for, DapBatchBucket, is_valid_part_batch_sel}
use daphne.Share.{share_add_out_share, reset, field64, of_field64}
use daphne.Protocol.Job.Justified.{AllJustified, produce_agg_job_resp-IsJustified}
use daphne.Span.{add_out_share, DapAggregateSpan, get}
use daphne.Protocol.Framing.{encode_ping_pong_framed, finish, decode_ping_pong_framed}
use daphne.Protocol.Framing.Exact.{decode_ping_pong_framed_iff}
use daphne.Protocol.Vdaf.{Vdaf, VdafResult, vdaf}
use daphne.Protocol.Report.{EarlyReportStateInitialized}
use daphne.Protocol.Job.{
  status_of, DapAggregationJobState, produce_agg_job_resp, consume_agg_job_resp,
}
use daphne.Protocol.Job.Order.{consume_agg_job_resp-ids, transition_id}
use daphne.Protocol.Job.View.{view, view_of, ids_in}
use daphne.Protocol.Job.Step.{Job, IsHonest, counted, helper_of, leader_of}
use daphne.Protocol.Job.Agreement.{agg_job-agreement}
use daphne.Tests.Reference.{reference, reference_laws}
use daphne.Tests.Shares.{toy, toy_laws, toy_digest}
use daphne.Tests.Task.{hourly}

abbrev pub toy_vdaf : Vdaf toy
toy_vdaf = record {
  VdafPrepState = Bytes;
  VdafPrepShare = Bytes;
  prep_init =
      λ is_leader report_id public_share input_share. VdafResult.ok (input_share, public_share);
  encode_prep_share = extend;
  prep_finish_from_shares = λ state share leader_share.
      if length share == length leader_share
      then VdafResult.ok (of_field64 state, share)
      else VdafResult.err vdaf;
  prep_finish = λ state prep_msg. VdafResult.ok (of_field64 state);
}

decode_ping_pong_framed_iff_example :
    (decode_ping_pong_framed reference (2 ∷ 0 ∷ 0 ∷ 0 ∷ 1 ∷ 9 ∷ []) finish ≡ Codec.ok (9 ∷ []))
    ↔ ((2 ∷ 0 ∷ 0 ∷ 0 ∷ 1 ∷ 9 ∷ [] ≡ 2 ∷ vector 4 (9 ∷ [])) × (1 < 256 ^ 4))
decode_ping_pong_framed_iff_example =
    decode_ping_pong_framed_iff reference_laws finish (2 ∷ 0 ∷ 0 ∷ 0 ∷ 1 ∷ 9 ∷ []) (9 ∷ [])
      (omega arith, (omega arith, (omega arith, (omega arith, (omega arith, (omega arith, tt))))))
      (omega arith)

abbrev pub at_noon : ReportMetadata
at_noon = record { id = replicate 16 1; time = 43200 }

abbrev pub later : ReportMetadata
later = record { id = replicate 16 2; time = 43300 }

abbrev evening : ReportMetadata
evening = record { id = replicate 16 3; time = 72000 }

-- A report that both finish, one that the Helper has rejected, and one that it fails to finish.
abbrev pub jobs : List (Job toy_vdaf)
jobs =
    (
      EarlyReportStateInitialized.ready at_noon [] (some (5 ∷ [])) (6 ∷ []) (1 ∷ 0 ∷ []),
      record { prep_state = 0 ∷ 0 ∷ []; time = 43200; report_id = replicate 16 1 },
    )
    ∷ (
      EarlyReportStateInitialized.rejected later report_too_early,
      record { prep_state = 0 ∷ 1 ∷ []; time = 43300; report_id = replicate 16 2 },
    )
    ∷ (
      EarlyReportStateInitialized.ready evening [] (some []) (6 ∷ []) (1 ∷ 1 ∷ []),
      record { prep_state = 1 ∷ 1 ∷ []; time = 72000; report_id = replicate 16 3 },
    )
    ∷ []

abbrev pub by_time : PartialBatchSelector
by_time = PartialBatchSelector.time_interval

pub jobs-IsHonest : All (IsHonest reference_laws toy_laws toy_vdaf field64 2 hourly by_time) jobs
jobs-IsHonest = (
  (refl, refl, (1 ∷ 0 ∷ [], 0 ∷ 0 ∷ [], refl, refl, omega arith, refl, refl)),
  (refl, ((refl, refl, tt), tt)),
)

abbrev pub leader_state : DapAggregationJobState toy_vdaf
leader_state = record { seq = map (leader_of toy_vdaf) jobs; part_batch_sel = by_time }

agg_job-agreement_example :
    (helper_span : DapAggregateSpan toy) × (leader_span : DapAggregateSpan toy)
    × (resp : AggregationJobResp) × (produce_agg_job_resp reference toy_vdaf hourly by_time []
          (map (helper_of toy_vdaf) jobs)
        ≡ ok (helper_span, resp))
    × (consume_agg_job_resp reference toy_vdaf hourly leader_state resp ≡ ok leader_span)
    × ((k : DapBatchBucket)
        → (view (get helper_span k)
            ≡ view_of toy_digest (ids_in hourly by_time toy_digest k (counted toy_vdaf jobs)))
          × (view (get leader_span k)
              ≡ view_of toy_digest (ids_in hourly by_time toy_digest k (counted toy_vdaf jobs))))
unfolding is_valid_part_batch_sel
agg_job-agreement_example =
    agg_job-agreement reference_laws toy_laws toy_vdaf field64 2 hourly by_time refl (omega arith)
      jobs jobs-IsHonest (omega arith)

abbrev pub resp : AggregationJobResp
resp = record {
  transitions =
      record { report_id = replicate 16 1; var = continued (2 ∷ 0 ∷ 0 ∷ 0 ∷ 1 ∷ 6 ∷ []) }
      ∷ record { report_id = replicate 16 2; var = failed report_too_early }
      ∷ record { report_id = replicate 16 3; var = failed vdaf_prep_error }
      ∷ [];
}

-- The span with the first report alone.
abbrev pub span_of : Bytes → DapAggregateSpan toy
span_of share =
    (
      DapBatchBucket.time_interval 43200 1,
      (
        record {
          report_count = 1;
          min_time = 43200;
          max_time = 43200;
          checksum = zip_xor (replicate 32 0) (toy_digest (replicate 16 1));
          agg_data = some (of_field64 share);
        },
        (replicate 16 1, 43200) ∷ [],
      ),
    )
    ∷ []

pub resp_produced :
    produce_agg_job_resp reference toy_vdaf hourly by_time [] (map (helper_of toy_vdaf) jobs)
    ≡ ok (span_of (1 ∷ 0 ∷ []), resp)
unfolding produce_agg_job_resp add_out_share status_of is_valid_part_batch_sel bucket_for
    share_add_out_share reset encode_ping_pong_framed encode_u32_bytes Codec.◌>>◌ reference extend
    Codec.done
resp_produced = refl

resp_consumed :
    consume_agg_job_resp reference toy_vdaf hourly leader_state resp ≡ ok (span_of (0 ∷ 0 ∷ []))
unfolding consume_agg_job_resp decode_ping_pong_framed Codec.◌>>=◌ reference add_out_share
    is_valid_part_batch_sel bucket_for share_add_out_share reset
resp_consumed = refl

consume_agg_job_resp-ids_example :
    map transition_id resp.transitions ≡ replicate 16 1 ∷ replicate 16 2 ∷ replicate 16 3 ∷ []
consume_agg_job_resp-ids_example =
    consume_agg_job_resp-ids reference toy_vdaf hourly leader_state resp (span_of (0 ∷ 0 ∷ []))
      resp_consumed

produce_agg_job_resp-IsJustified_example : AllJustified [] (span_of (1 ∷ 0 ∷ [])) resp.transitions
produce_agg_job_resp-IsJustified_example =
    produce_agg_job_resp-IsJustified reference toy_vdaf hourly by_time []
      (map (helper_of toy_vdaf) jobs) (span_of (1 ∷ 0 ∷ [])) resp resp_produced
