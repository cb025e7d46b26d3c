-- ===== src/Protocol/Job/View.antt =====
-- What two Aggregators compare of a span: everything in it but the shares of the data.
use Prim.Native.Nat.{min, max}
use daphne.Common.{
  ℕ, suc, ◌<◌, ◌≡◌, refl, ap, ◌∙◌, Bool-cases, inl, inr, Option, none, some, List, [], ◌∷◌, ◌++◌,
  map, run, length, if◌then◌else◌, arith, map-append, map-map, length-map, true,
}
use daphne.Codec.Base.{Bytes}
use daphne.Errors.{ok}
use daphne.Messages.Ids.{ReportId}
use daphne.Messages.Batch.{PartialBatchSelector}
use daphne.Task.{DapTaskConfig, DapBatchBucket, is_valid_part_batch_sel, bucket_for, u64_end}
use daphne.Share.{Field, Crypto}
use daphne.Share.Summary.{CryptoLaws, OutShare, wrap, checksum_of, HasSize}
use daphne.Span.{shard, Entry, DapAggregateSpan, get, add_out_share}
use daphne.Span.Summary.{
  is_bucket, falls_in, reports_in, id_time, entry_of, Represents, HasSize-append,
  add_out_share-Represents,
}

-- The report count, the earliest and the latest time, the checksum and the reports of a bucket.
abbrev pub BucketView : Type 0
BucketView = ℕ × ℕ × ℕ × Bytes × List (ReportId × ℕ)

abbrev pub view : {c : Crypto} → Option (Entry c) → Option BucketView
view none = none
view (some (s, reports)) = some (s.report_count, s.min_time, s.max_time, s.checksum, reports)

abbrev id_in : ReportId × ℕ → ReportId
id_in r = r.0

abbrev time_in : ReportId × ℕ → ℕ
time_in r = r.1

-- The view of a bucket with these reports; a bucket without reports is not there.
abbrev pub view_of : (Bytes → Bytes) → List (ReportId × ℕ) → Option BucketView
view_of sha256 [] = none
view_of sha256 (r ∷ rs) = some (
  length (r ∷ rs),
  run min r.1 (map time_in rs),
  run max r.1 (map time_in rs),
  checksum_of sha256 (map id_in (r ∷ rs)),
  r ∷ rs,
)

-- The reports that fall in bucket `k`.
abbrev pub ids_in :
    DapTaskConfig
    → PartialBatchSelector
    → (Bytes → Bytes)
    → DapBatchBucket
    → List (ReportId × ℕ)
    → List (ReportId × ℕ)
ids_in t sel sha256 k [] = []
ids_in t sel sha256 k (r ∷ rs) =
    let rest = ids_in t sel sha256 k rs in
    if is_bucket k (bucket_for t sel r.1 (shard sha256 r.0 t.num_agg_span_shards))
    then r ∷ rest
    else rest

module _ {c : Crypto} (laws : CryptoLaws c) (f : Field) (t : DapTaskConfig)
    (sel : PartialBatchSelector) where
  view-entry_of :
      (xs : List (OutShare c f))
      → view (entry_of laws f t sel xs) ≡ view_of c.sha256 (map (id_time laws f t sel) xs)
  view-entry_of [] = refl
  view-entry_of (x ∷ xs) =
      let entry = id_time laws f t sel in
      rw (length-map entry xs, map-map time_in entry xs, map-map id_in entry xs)

  ids_in-reports_in :
      (k : DapBatchBucket) (xs : List (OutShare c f))
      → map (id_time laws f t sel) (reports_in laws f t sel k xs)
        ≡ ids_in t sel c.sha256 k (map (id_time laws f t sel) xs)
  ids_in-reports_in k [] = refl
  ids_in-reports_in k (x ∷ xs) = elim (Bool-cases (falls_in laws f t sel k x)) [
    | inl h ↦ rw (h, ids_in-reports_in k xs)
    | inr h ↦ rw (h, ids_in-reports_in k xs)
  ]

  -- The span holds these reports, with output shares of size `n`.
  abbrev pub Holds : ℕ → DapAggregateSpan c → List (ReportId × ℕ) → Type 0
  Holds n span reports =
      (xs : List (OutShare c f)) × Represents laws f t sel span xs
      × HasSize laws f n xs
      × (map (id_time laws f t sel) xs ≡ reports)

  pub Holds-view :
      (n : ℕ) (span : DapAggregateSpan c) (reports : List (ReportId × ℕ)) (k : DapBatchBucket)
      → Holds n span reports
      → view (get span k) ≡ view_of c.sha256 (ids_in t sel c.sha256 k reports)
  Holds-view n span reports k (xs, r, s, e) =
      ap view (r k)
      ∙ view-entry_of (reports_in laws f t sel k xs)
      ∙ ap (view_of c.sha256) (ids_in-reports_in k xs ∙ ap (ids_in t sel c.sha256 k) e)

  pub Holds-add :
      (n : ℕ) (span : DapAggregateSpan c) (reports : List (ReportId × ℕ)) (id : ReportId) (time : ℕ)
      (share : c.FieldShare f)
      → is_valid_part_batch_sel t.query sel ≡ true
      → 0 < t.time_precision
      → Holds n span reports
      → laws.size f share ≡ n
      → suc (length reports) < u64_end
      → (after : DapAggregateSpan c) × (add_out_share t sel id time (wrap f share) span ≡ ok after)
        × Holds n after (reports ++ ((id, time) ∷ []))
  Holds-add n span reports id time share valid pos (xs, r, s, e) size fits =
      let x : OutShare c f = record { report_id = id; time = time; share = share } in
      let (after, added, r') =
        add_out_share-Represents laws f t sel valid pos n span xs x r s size
          (omega (arith, fits, ap length e, length-map (id_time laws f t sel) xs)) in
      (
        after,
        added,
        (
          xs ++ (x ∷ []),
          r',
          HasSize-append laws f t sel n xs x s size,
          map-append (id_time laws f t sel) xs (x ∷ []) ∙ ap (◌++ ((id, time) ∷ [])) e,
        ),
      )
