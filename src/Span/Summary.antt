-- ===== src/Span/Summary.antt =====
-- What a span says of the reports that were added to it, bucket by bucket.
use daphne.Common.{
  map-append, ℕ, suc, ◌+◌, ◌-◌, ◌%◌, ◌<◌, ◌≤◌, ◌≡◌, refl, sym, ap, ◌∙◌, Bool, true, false, inl, inr,
  Option, none, some, List, [], ◌∷◌, ◌++◌, map, ◌==◌, if◌then◌else◌, Bool-cases, length, append-nil,
  append_assoc, length-append, arith,
}
use daphne.Errors.{Outcome, ok, ◌>>=◌}
use daphne.Messages.Ids.{ReportId}
use daphne.Messages.Batch.{PartialBatchSelector}
use daphne.Task.{
  DapTaskConfig, DapBatchBucket, is_valid_part_batch_sel, bucket_for, quantized_time_lower_bound,
  u64_end,
}
use daphne.Share.{Field, Crypto, reset, share_add_out_share}
use daphne.Share.Summary.{CryptoLaws, OutShare, wrap, summary, HasSize, share_add_out_share-summary}
use daphne.Span.{bucket_eq, shard, Entry, DapAggregateSpan, get, or_default, add_out_share}
use daphne.Span.Buckets.{bucket_eq_sound, update_entry-ok}

abbrev pub is_bucket : DapBatchBucket → Outcome DapBatchBucket → Bool
is_bucket k (ok bucket) = bucket_eq bucket k
is_bucket k _ = false

bucket_for-ok :
    (t : DapTaskConfig) (sel : PartialBatchSelector) (time number : ℕ)
    → 0 < t.time_precision
    → (bucket : DapBatchBucket) × (bucket_for t sel time number ≡ ok bucket)
unfolding bucket_for quantized_time_lower_bound
bucket_for-ok t PartialBatchSelector.time_interval time number pos =
    let nonzero : (t.time_precision == 0) ≡ false = ground arith in
    (DapBatchBucket.time_interval (time - time % t.time_precision) number, rw nonzero)
bucket_for-ok t (PartialBatchSelector.fixed_size_by_batch_id batch_id) time number pos = (_, refl)

module _ {c : Crypto} (laws : CryptoLaws c) (f : Field) (t : DapTaskConfig)
    (sel : PartialBatchSelector) where
  -- Whether the bucket of a report is `k`.
  abbrev pub falls_in : DapBatchBucket → OutShare c f → Bool
  falls_in k x =
      is_bucket k (bucket_for t sel x.time (shard c.sha256 x.report_id t.num_agg_span_shards))

  -- The reports of bucket `k`, in their order.
  abbrev pub reports_in : DapBatchBucket → List (OutShare c f) → List (OutShare c f)
  reports_in k [] = []
  reports_in k (x ∷ xs) = let rest = reports_in k xs in if falls_in k x then x ∷ rest else rest

  abbrev pub id_time : OutShare c f → ReportId × ℕ
  id_time x = (x.report_id, x.time)

  abbrev pub entry_of : List (OutShare c f) → Option (Entry c)
  entry_of [] = none
  entry_of (x ∷ xs) = some (summary laws f (x ∷ xs), map id_time (x ∷ xs))

  -- Every bucket has the summary of its reports, and a bucket without reports is not there.
  abbrev pub Represents : DapAggregateSpan c → List (OutShare c f) → Type 0
  Represents span xs = (k : DapBatchBucket) → get span k ≡ entry_of (reports_in k xs)

  -- `add_out_share` for one report after the other.
  abbrev pub add_out_shares :
      List (OutShare c f) → DapAggregateSpan c → Outcome (DapAggregateSpan c)
  add_out_shares [] span = ok span
  add_out_shares (x ∷ xs) span =
      add_out_share t sel x.report_id x.time (wrap f x.share) span >>= add_out_shares xs

  pub reports_in-append :
      (k : DapBatchBucket) (xs ys : List (OutShare c f))
      → reports_in k (xs ++ ys) ≡ reports_in k xs ++ reports_in k ys
  reports_in-append k [] ys = refl
  reports_in-append k (x ∷ xs) ys = elim (Bool-cases (falls_in k x)) [
    | inl h ↦ rw (h, reports_in-append k xs ys)
    | inr h ↦ rw (h, reports_in-append k xs ys)
  ]

  pub reports_in-HasSize :
      (n : ℕ) (k : DapBatchBucket) (xs : List (OutShare c f))
      → HasSize laws f n xs
      → HasSize laws f n (reports_in k xs)
  reports_in-HasSize n k [] h = tt
  reports_in-HasSize n k (x ∷ xs) h = elim (Bool-cases (falls_in k x)) [
    | inl e ↦ rw e (h.0, reports_in-HasSize n k xs h.1)
    | inr e ↦ rw e (reports_in-HasSize n k xs h.1)
  ]

  pub length-reports_in :
      (k : DapBatchBucket) (xs : List (OutShare c f)) → length (reports_in k xs) ≤ length xs
  length-reports_in k [] = omega arith
  length-reports_in k (x ∷ xs) =
      let rest = length-reports_in k xs in
      elim (Bool-cases (falls_in k x)) [
        | inl e ↦ rw e (omega (arith, rest))
        | inr e ↦ rw e (omega (arith, rest))
      ]

  pub or_default-entry_of :
      (xs : List (OutShare c f)) → or_default (entry_of xs) ≡ (summary laws f xs, map id_time xs)
  unfolding reset
  or_default-entry_of [] = refl
  or_default-entry_of (x ∷ xs) = refl

  entry_of-append :
      (xs : List (OutShare c f)) (x : OutShare c f)
      → entry_of (xs ++ (x ∷ []))
        ≡ some (summary laws f (xs ++ (x ∷ [])), map id_time xs ++ ((x.report_id, x.time) ∷ []))
  entry_of-append [] x = refl
  entry_of-append (y ∷ ys) x =
      ap (λ ids. some (summary laws f ((y ∷ ys) ++ (x ∷ [])), id_time y ∷ ids))
        (map-append id_time ys (x ∷ []))

  pub reports_in-one :
      (k bucket : DapBatchBucket) (x : OutShare c f)
      → bucket_for t sel x.time (shard c.sha256 x.report_id t.num_agg_span_shards) ≡ ok bucket
      → reports_in k (x ∷ []) ≡ (if bucket_eq bucket k then x ∷ [] else [])
  reports_in-one k bucket x e = ap (λ o. if is_bucket k o then x ∷ [] else []) e

  pub HasSize-append :
      (n : ℕ) (xs : List (OutShare c f)) (x : OutShare c f)
      → HasSize laws f n xs
      → laws.size f x.share ≡ n
      → HasSize laws f n (xs ++ (x ∷ []))
  HasSize-append n [] x h e = (e, tt)
  HasSize-append n (y ∷ ys) x h e = (h.0, HasSize-append n ys x h.1 e)

  module _ (valid : is_valid_part_batch_sel t.query sel ≡ true) (pos : 0 < t.time_precision) where
    landed :
        (k bucket : DapBatchBucket) (xs : List (OutShare c f)) (x : OutShare c f)
        → bucket_for t sel x.time (shard c.sha256 x.report_id t.num_agg_span_shards) ≡ ok bucket
        → (if bucket_eq bucket k
            then some (
              summary laws f (reports_in bucket xs ++ (x ∷ [])),
              map id_time (reports_in bucket xs) ++ ((x.report_id, x.time) ∷ []),
            )
            else entry_of (reports_in k xs))
          ≡ entry_of (reports_in k (xs ++ (x ∷ [])))
    landed k bucket xs x e = elim (Bool-cases (bucket_eq bucket k)) [
      | inl same ↦
          rw (reports_in-append k xs (x ∷ []), reports_in-one k bucket x e, same)
            (rw (bucket_eq_sound bucket k same) (sym (entry_of-append (reports_in k xs) x)))
      | inr other ↦
          rw (reports_in-append k xs (x ∷ []), reports_in-one k bucket x e, other)
            (ap entry_of (sym (append-nil (reports_in k xs))))
    ]

    pub add_out_share-Represents :
        (n : ℕ) (span : DapAggregateSpan c) (xs : List (OutShare c f)) (x : OutShare c f)
        → Represents span xs
        → HasSize laws f n xs
        → laws.size f x.share ≡ n
        → suc (length xs) < u64_end
        → (after : DapAggregateSpan c) × (add_out_share t sel x.report_id x.time
              (wrap f x.share)
              span
            ≡ ok after)
          × Represents after (xs ++ (x ∷ []))
    unfolding add_out_share
    add_out_share-Represents n span xs x h sizes size fits =
        let (bucket, e) =
          bucket_for-ok t sel x.time (shard c.sha256 x.report_id t.num_agg_span_shards) pos in
        let here = reports_in bucket xs in
        let body : Entry c → Outcome (Entry c) = λ entry. (do
          agg_share ← share_add_out_share entry.0 x.report_id x.time (wrap f x.share)
          ok (agg_share, entry.1 ++ ((x.report_id, x.time) ∷ []))) in
        let new : Entry c =
          (summary laws f (here ++ (x ∷ [])), map id_time here ++ ((x.report_id, x.time) ∷ [])) in
        let found : body (or_default (get span bucket)) ≡ ok new = rw (
          h bucket,
          or_default-entry_of here,
          share_add_out_share-summary laws f n here x (reports_in-HasSize n bucket xs sizes) size
              (omega (arith, length-reports_in bucket xs)),
        ) in
        let (after, e', u) = update_entry-ok bucket body new span found in
        (
          after,
          rw (valid, e, e'),
          λ k.
              u k
              ∙ ap (λ r. if bucket_eq bucket k then some new else r) (h k)
              ∙ landed k bucket xs x e,
        )

    add_out_shares-Represents :
        (n : ℕ) (xs ys : List (OutShare c f)) (span : DapAggregateSpan c)
        → Represents span xs
        → HasSize laws f n xs
        → HasSize laws f n ys
        → length xs + length ys < u64_end
        → (after : DapAggregateSpan c) × (add_out_shares ys span ≡ ok after)
          × Represents after (xs ++ ys)
    add_out_shares-Represents n xs [] span h hx hy fits =
        (span, refl, λ k. rw (append-nil xs) (h k))
    add_out_shares-Represents n xs (y ∷ ys) span h hx hy fits =
        let (next, e, h') = add_out_share-Represents n span xs y h hx hy.0 (omega arith) in
        let (after, e', h'') =
          add_out_shares-Represents n (xs ++ (y ∷ [])) ys next h' (HasSize-append n xs y hx hy.0)
            hy.1 (omega (arith, length-append xs (y ∷ []))) in
        (after, rw (e, e'), λ k. rw (sym (append_assoc xs (y ∷ []) ys)) (h'' k))

    -- If the operations have the laws of `CryptoLaws`, the selector fits the task, the time precision is positive, the output shares all have the
    -- same size and there are less than 2^64 reports, then adding the reports one after the other
    -- to the empty span succeeds, and in the resulting span every bucket has exactly the reports
    -- that fall in it, in order, with the share that summarises them; a bucket in which no report
    -- falls is absent.
    pub add_out_shares-summary :
        (n : ℕ) (xs : List (OutShare c f))
        → HasSize laws f n xs
        → length xs < u64_end
        → (span : DapAggregateSpan c) × (add_out_shares xs [] ≡ ok span)
          × ((k : DapBatchBucket) → get span k ≡ entry_of (reports_in k xs))
    unfolding get
    add_out_shares-summary n xs h fits =
        add_out_shares-Represents n [] xs [] (λ k. refl) tt h (omega arith)
