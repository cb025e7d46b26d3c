-- ===== src/Tests/Task.antt =====
-- The theorems about tasks and their configurations at concrete inputs.
use daphne.Common.{false, ◌+◌, ◌≡◌, ◌↔◌, ◌≤◌, ◌<◌, ◌∷◌, [], List, refl, In, arith}
use daphne.Codec.Base.{panic}
use daphne.Errors.{ok}
use daphne.Messages.Hpke.{HpkeConfig, x25519_hkdf_sha256, hkdf_sha256, aes128_gcm}
use daphne.Messages.Batch.{Interval, PartialBatchSelector, BatchSelector}
use daphne.Messages.Taskprov.Task.{decode_task_config}
use daphne.Messages.Taskprov.Task.PastEnd.{cut_task_config, decode_task_config-panics}
use daphne.Task.{
  draft09, VdafConfig, DapTaskConfig, DapQueryConfig, DapBatchBucket, batch_span_for_sel,
  bucket_for,
}
use daphne.Task.Span.{batch_span-exact}
use daphne.Tests.Reference.{reference, reference_laws}

abbrev pub collector_config : HpkeConfig
collector_config = record {
  id = 7;
  kem_id = x25519_hkdf_sha256;
  kdf_id = hkdf_sha256;
  aead_id = aes128_gcm;
  public_key = 1 ∷ 2 ∷ [];
}

abbrev pub hourly : DapTaskConfig
hourly = record {
  version = draft09;
  time_precision = 3600;
  min_batch_size = 10;
  query = DapQueryConfig.time_interval;
  not_before = 7200;
  not_after = 1000000;
  method_is_taskprov = false;
  vdaf = VdafConfig.prio3;
  collector_hpke_config = collector_config;
  num_agg_span_shards = 2;
}

abbrev pub two_hours : Interval
two_hours = record { start = 7200; duration = 7200 }

batch_span-exact_example :
    (span : List DapBatchBucket) × (bucket : DapBatchBucket) × (batch_span_for_sel hourly
        (BatchSelector.time_interval two_hours)
      ≡ ok span)
    × (bucket_for hourly PartialBatchSelector.time_interval 10000 1 ≡ ok bucket)
    × (In bucket span ↔ ((7200 ≤ 10000) × (10000 < 7200 + 7200) × (1 < 2)))
batch_span-exact_example =
    batch_span-exact hourly two_hours 10000 1 refl (omega arith) refl refl (omega arith)

decode_task_config-panics_example :
    decode_task_config reference (record {
      position = 0;
      rest =
          cut_task_config
            (1 ∷ 2 ∷ [])
            (record { bytes = 3 ∷ [] })
            (record { bytes = [] })
            20
            (4 ∷ 5 ∷ []);
    })
    ≡ panic
decode_task_config-panics_example =
    decode_task_config-panics reference_laws (1 ∷ 2 ∷ []) (record { bytes = 3 ∷ [] })
      (record { bytes = [] }) 20 (4 ∷ 5 ∷ []) (omega arith, (omega arith, tt)) (omega arith)
      (omega arith) (omega arith) (omega arith) (omega arith)
