-- ===== src/Tests/Shares.antt =====
-- The theorems about aggregate shares and spans at concrete reports. Here a share is a vector over
-- the field of two elements, and a digest is the string itself, cut or filled to 32 bytes.
use daphne.Common.{
  inl, inr, Bool-cases, ◌≡◌, refl, [], ◌∷◌, ◌++◌, none, some, ◌==◌, if◌then◌else◌, length,
  length-take, length-append, take, replicate, zip_xor, zip_xor_assoc, length-zip_xor, ==_iff,
  arith,
}
use daphne.Codec.Base.{Bytes}
use daphne.Errors.{ok}
use daphne.Messages.Batch.{PartialBatchSelector}
use daphne.Task.{DapBatchBucket, is_valid_part_batch_sel, bucket_for, quantized_time_lower_bound}
use daphne.Share.{field64, Crypto, merge}
use daphne.Share.Summary.{CryptoLaws, OutShare, summary, merge-summary}
use daphne.Span.{DapAggregateSpan, get, shard, bucket_eq, merge_span}
use daphne.Span.Merge.{merge_span-summary}
use daphne.Span.Summary.{
  Represents, reports_in-one, reports_in, entry_of, add_out_shares, add_out_shares-summary,
}
use daphne.Tests.Task.{hourly}

abbrev pub toy_digest : Bytes → Bytes
toy_digest s = take 32 (s ++ replicate 32 0)

abbrev pub toy : Crypto
toy = record {
  FieldShare = λ f. Bytes;
  merge_field = λ f a b. if length a == length b then some (zip_xor a b) else none;
  sha256 = toy_digest;
}

abbrev pub toy_laws : CryptoLaws toy
toy_laws = record {
  size = λ f s. length s;
  add = λ f. zip_xor;
  merge_field_lem = λ f a b h. rw ((==_iff (length a) (length b)).1 h);
  size-add = λ f a b h. length-zip_xor a b;
  add_assoc = λ f. zip_xor_assoc;
  length-sha256 = λ s. length-take 32 _ (omega (arith, length-append s (replicate 32 0)));
}

abbrev first : OutShare toy field64
first = record { report_id = replicate 16 1; time = 7300; share = 1 ∷ 0 ∷ [] }

abbrev second : OutShare toy field64
second = record { report_id = replicate 16 2; time = 11000; share = 1 ∷ 1 ∷ [] }

abbrev third : OutShare toy field64
third = record { report_id = replicate 16 4; time = 7200; share = 0 ∷ 1 ∷ [] }

merge-summary_example :
    merge (summary toy_laws field64 (first ∷ second ∷ [])) (summary toy_laws field64 (third ∷ []))
    ≡ ok (summary toy_laws field64 (first ∷ second ∷ third ∷ []))
merge-summary_example =
    merge-summary toy_laws field64 2 (first ∷ second ∷ []) (third ∷ []) (refl, (refl, tt))
      (refl, tt) (omega arith)

add_out_shares-summary_example :
    (span : DapAggregateSpan toy) × (add_out_shares toy_laws field64 hourly
        PartialBatchSelector.time_interval
        (first ∷ second ∷ third ∷ [])
        []
      ≡ ok span)
    × ((k : DapBatchBucket)
        → get span k
          ≡ entry_of toy_laws field64 hourly PartialBatchSelector.time_interval (
              reports_in toy_laws field64 hourly PartialBatchSelector.time_interval k
                (first ∷ second ∷ third ∷ [])))
unfolding is_valid_part_batch_sel
add_out_shares-summary_example =
    add_out_shares-summary toy_laws field64 hourly PartialBatchSelector.time_interval refl
      (omega arith) 2 (first ∷ second ∷ third ∷ []) (refl, (refl, (refl, tt))) (omega arith)

-- A span with one report.
abbrev one_span : DapBatchBucket → OutShare toy field64 → DapAggregateSpan toy
one_span bucket x = (bucket, (summary toy_laws field64 (x ∷ []), (x.report_id, x.time) ∷ [])) ∷ []

one_span-Represents :
    (bucket : DapBatchBucket) (x : OutShare toy field64)
    → bucket_for hourly PartialBatchSelector.time_interval x.time
        (shard toy_digest x.report_id hourly.num_agg_span_shards)
      ≡ ok bucket
    → Represents toy_laws field64 hourly PartialBatchSelector.time_interval
        (one_span bucket x)
        (x ∷ [])
unfolding get
one_span-Represents bucket x e k =
    rw (reports_in-one toy_laws field64 hourly PartialBatchSelector.time_interval k bucket x e)
      (elim (Bool-cases (bucket_eq bucket k)) [ inl h ↦ rw h | inr h ↦ rw h ])

merge_span-summary_example :
    (after : DapAggregateSpan toy) × (merge_span
        (one_span (DapBatchBucket.time_interval 7200 1) first)
        (one_span (DapBatchBucket.time_interval 7200 0) third)
      ≡ ok after)
    × Represents toy_laws field64 hourly PartialBatchSelector.time_interval after
        (first ∷ third ∷ [])
unfolding bucket_for shard quantized_time_lower_bound get
merge_span-summary_example =
    merge_span-summary toy_laws field64 hourly PartialBatchSelector.time_interval 2 (first ∷ [])
      (third ∷ []) (one_span (DapBatchBucket.time_interval 7200 1) first)
      (one_span (DapBatchBucket.time_interval 7200 0) third) (refl, tt) (refl, tt) (omega arith)
      (refl, tt) (one_span-Represents _ first refl) (one_span-Represents _ third refl)
