-- ===== src/Tests/Messages.antt =====
-- The round trips at concrete messages.
use daphne.Common.{[], ◌∷◌, ◌++◌, ◌≡◌, refl, replicate, arith}
use daphne.Codec.Base.{Bytes, ok}
use daphne.Codec.RoundTrip.{RoundTrips}
use daphne.Messages.Report.{ReportMetadata, HpkeCiphertext, ReportShare}
use daphne.Messages.Batch.{PartialBatchSelector}
use daphne.Messages.Aggregation.{
  AggregationJobInitReq, AggregationJobResp, continued, failed, report_replayed,
  encode_agg_job_init_req, decode_agg_job_init_req, encode_agg_job_resp, decode_agg_job_resp,
}
use daphne.Messages.Aggregation.RoundTrip.{
  agg_job_init_req_wire, RoundTrips-agg_job_init_req, agg_job_resp_wire, RoundTrips-agg_job_resp,
}
use daphne.Messages.Taskprov.Vdaf.{DpConfig, VdafTypeVar}
use daphne.Messages.Taskprov.Task.{
  TaskConfig, QueryConfigVar, encode_task_config, decode_task_config,
}
use daphne.Messages.Taskprov.Task.RoundTrip.{task_config_wire, RoundTrips-task_config}
use daphne.Tests.Reference.{reference, reference_laws}

abbrev id_16 : Bytes
id_16 = replicate 16 23

abbrev id_32 : Bytes
id_32 = replicate 32 7

abbrev metadata : ReportMetadata
metadata = record { id = id_16; time = 1637364244 }

abbrev ciphertext : HpkeCiphertext
ciphertext = record { config_id = 23; enc = 1 ∷ 2 ∷ []; payload = 3 ∷ 4 ∷ 5 ∷ [] }

abbrev share : ReportShare
share = record { report_metadata = metadata; public_share = []; encrypted_input_share = ciphertext }

abbrev init_req : AggregationJobInitReq
init_req = record {
  agg_param = [];
  part_batch_sel = PartialBatchSelector.fixed_size_by_batch_id id_32;
  prep_inits = record { report_share = share; payload = 8 ∷ [] } ∷ [];
}

RoundTrips-agg_job_init_req_example :
    RoundTrips
      (encode_agg_job_init_req reference init_req)
      (decode_agg_job_init_req reference)
      init_req
      (agg_job_init_req_wire init_req)
RoundTrips-agg_job_init_req_example =
    RoundTrips-agg_job_init_req reference_laws init_req (omega arith)

abbrev resp : AggregationJobResp
resp = record {
  transitions =
      record { report_id = id_16; var = continued (1 ∷ 2 ∷ []) }
      ∷ record { report_id = replicate 16 99; var = failed report_replayed }
      ∷ [];
}

RoundTrips-agg_job_resp_example :
    RoundTrips
      (encode_agg_job_resp reference resp)
      (decode_agg_job_resp reference)
      resp
      (agg_job_resp_wire resp)
RoundTrips-agg_job_resp_example = RoundTrips-agg_job_resp reference_laws resp (omega arith)

abbrev task_config : TaskConfig
task_config = record {
  task_info = 99 ∷ 111 ∷ [];
  leader_url = record { bytes = 104 ∷ [] };
  helper_url = record { bytes = 105 ∷ [] };
  query_config = record {
    time_precision = 3600;
    max_batch_query_count = 1;
    min_batch_size = 55;
    var = QueryConfigVar.not_implemented 9 (1 ∷ 2 ∷ []);
  };
  task_expiration = 23232232232;
  vdaf_config = record {
    dp_config = DpConfig.not_implemented 7 (1 ∷ []);
    var = VdafTypeVar.not_implemented 0x1337 (4 ∷ 5 ∷ []);
  };
}

RoundTrips-task_config_example :
    RoundTrips
      (encode_task_config reference task_config)
      (decode_task_config reference)
      task_config
      (task_config_wire task_config)
RoundTrips-task_config_example = RoundTrips-task_config reference_laws task_config (omega arith)

-- One failed transition, decoded from its bytes.

-- One failed transition, decoded from its bytes.
decode_failed_transition :
    decode_agg_job_resp reference
      (record { position = 0; rest = 0 ∷ 0 ∷ 0 ∷ 18 ∷ replicate 16 99 ++ (2 ∷ 1 ∷ []) })
    ≡ ok (
      record {
        transitions = record { report_id = replicate 16 99; var = failed report_replayed } ∷ [];
      },
      record { position = 22; rest = [] },
    )
unfolding decode_agg_job_resp daphne.Messages.Aggregation.decode_transition
    daphne.Messages.Aggregation.decode_transition_var daphne.Messages.Aggregation.decode_failure
    daphne.Messages.Aggregation.failure_try_from daphne.Messages.Ids.decode_id
    daphne.Codec.Base.read_exact daphne.Codec.Base.pure daphne.Codec.Base.◌>>=◌ reference
decode_failed_transition = refl
