-- ===== src/Span/Merge.antt =====
-- The merge of two spans.
use daphne.Common.{
  map-append, ℕ, ◌+◌, ◌<◌, ◌∙◌, ◌≡◌, refl, sym, ap, inl, inr, none, some, List, [], ◌∷◌, ◌++◌, map,
  if◌then◌else◌, Bool-cases, length, length-append, append-nil, arith,
}
use daphne.Errors.{ok, ◌>>=◌}
use daphne.Messages.Batch.{PartialBatchSelector}
use daphne.Task.{DapTaskConfig, DapBatchBucket, u64_end}
use daphne.Share.{Field, Crypto, merge}
use daphne.Share.Summary.{CryptoLaws, OutShare, summary, HasSize, merge-summary}
use daphne.Span.{bucket_eq, Entry, DapAggregateSpan, get, update_entry, merge_span}
use daphne.Span.Buckets.{bucket_eq_sound, bucket_eq_refl, update_entry-ok}
use daphne.Span.Summary.{
  entry_of, id_time, or_default-entry_of, reports_in, Represents, reports_in-append,
  reports_in-HasSize, length-reports_in,
}

-- No bucket stands twice, as in a `HashMap`.
abbrev pub Distinct : {c : Crypto} → DapAggregateSpan c → Type 0
Distinct [] = Unit
Distinct ((bucket, entry) ∷ span) = (get span bucket ≡ none) × Distinct span

module _ {c : Crypto} (laws : CryptoLaws c) (f : Field) (t : DapTaskConfig)
    (sel : PartialBatchSelector) where
  -- The span has the summary of the reports `reports k` for every bucket `k` that has any.
  abbrev pub Holds : DapAggregateSpan c → (DapBatchBucket → List (OutShare c f)) → Type 0
  Holds span reports = (k : DapBatchBucket) → get span k ≡ entry_of laws f t sel (reports k)

  entry-found :
      (entry : Entry c) (xs : List (OutShare c f))
      → some entry ≡ entry_of laws f t sel xs
      → entry ≡ (summary laws f xs, map (id_time laws f t sel) xs)
  entry-found entry [] h = cc
  entry-found entry (x ∷ xs) h = cc

  entry_of-both :
      (entry : Entry c) (xs ys : List (OutShare c f))
      → some entry ≡ entry_of laws f t sel ys
      → entry_of laws f t sel (xs ++ ys)
        ≡ some (
          summary laws f (xs ++ ys),
          map (id_time laws f t sel) xs ++ map (id_time laws f t sel) ys,
        )
  entry_of-both entry xs [] h = cc
  entry_of-both entry [] (y ∷ ys) h = refl
  entry_of-both entry (x ∷ xs) (y ∷ ys) h =
      ap (λ ids. some (summary laws f ((x ∷ xs) ++ (y ∷ ys)), id_time laws f t sel x ∷ ids))
        (map-append (id_time laws f t sel) xs (y ∷ ys))

  entry_of-none : (xs : List (OutShare c f)) → none ≡ entry_of laws f t sel xs → xs ≡ []
  entry_of-none [] h = refl
  entry_of-none (x ∷ xs) h = cc

  -- The reports of the other buckets.
  abbrev without :
      DapBatchBucket → (DapBatchBucket → List (OutShare c f)) → DapBatchBucket → List (OutShare c f)
  without bucket reports k = if bucket_eq bucket k then [] else reports k

  abbrev joined :
      DapBatchBucket
      → (DapBatchBucket → List (OutShare c f))
      → (DapBatchBucket → List (OutShare c f))
      → DapBatchBucket
      → List (OutShare c f)
  joined bucket left right k = if bucket_eq bucket k then left bucket ++ right bucket else left k

  Holds-rest :
      (bucket : DapBatchBucket) (entry : Entry c) (span : DapAggregateSpan c)
      (reports : DapBatchBucket → List (OutShare c f))
      → get span bucket ≡ none
      → Holds ((bucket, entry) ∷ span) reports
      → Holds span (without bucket reports)
  unfolding get
  Holds-rest bucket entry span reports absent h k = elim (Bool-cases (bucket_eq bucket k)) [
    | inl same ↦ rw (same, sym (bucket_eq_sound bucket k same)) absent
    | inr other ↦ rw other (rw other at (h k))
  ]

  module _ (n : ℕ) where
    HasSize-joined :
        (xs ys : List (OutShare c f))
        → HasSize laws f n xs
        → HasSize laws f n ys
        → HasSize laws f n (xs ++ ys)
    HasSize-joined [] ys hx hy = hy
    HasSize-joined (x ∷ xs) ys hx hy = (hx.0, HasSize-joined xs ys hx.1 hy)

    merge-entry :
        (bucket : DapBatchBucket) (other : Entry c) (self : DapAggregateSpan c)
        (left right : DapBatchBucket → List (OutShare c f))
        → Holds self left
        → some other ≡ entry_of laws f t sel (right bucket)
        → HasSize laws f n (left bucket)
        → HasSize laws f n (right bucket)
        → length (left bucket) + length (right bucket) < u64_end
        → (after : DapAggregateSpan c) × (update_entry bucket
              (λ entry. do agg_share ← merge entry.0 other.0; ok (agg_share, entry.1 ++ other.1))
              self
            ≡ ok after)
          × Holds after (joined bucket left right)
    merge-entry bucket other self left right h there sl sr fits =
        let new : Entry c = (
          summary laws f (left bucket ++ right bucket),
          map (id_time laws f t sel) (left bucket) ++ map (id_time laws f t sel) (right bucket),
        ) in
        let (after, e, u) = update_entry-ok bucket _ new self (
          rw (
            h bucket,
            or_default-entry_of laws f t sel (left bucket),
            entry-found other (right bucket) there,
            merge-summary laws f n (left bucket) (right bucket) sl sr fits,
          )) in
        (
          after,
          e,
          λ k. elim (Bool-cases (bucket_eq bucket k)) [
            | inl same ↦
                rw same
                  (rw same at (u k) ∙ sym (entry_of-both other (left bucket) (right bucket) there))
            | inr other_bucket ↦ rw other_bucket (rw other_bucket at (u k) ∙ h k)
          ],
        )

    joined-without :
        (bucket k : DapBatchBucket) (left right : DapBatchBucket → List (OutShare c f))
        → joined bucket left right k ++ without bucket right k ≡ left k ++ right k
    joined-without bucket k left right = elim (Bool-cases (bucket_eq bucket k)) [
      | inl same ↦
          rw (same, append-nil (left bucket ++ right bucket), bucket_eq_sound bucket k same)
      | inr other ↦ rw other
    ]

    HasSize-joined_bucket :
        (bucket k : DapBatchBucket) (left right : DapBatchBucket → List (OutShare c f))
        → ((k : DapBatchBucket) → HasSize laws f n (left k))
        → ((k : DapBatchBucket) → HasSize laws f n (right k))
        → HasSize laws f n (joined bucket left right k) × HasSize laws f n (without bucket right k)
    HasSize-joined_bucket bucket k left right sl sr = elim (Bool-cases (bucket_eq bucket k)) [
      | inl same ↦ rw same (HasSize-joined (left bucket) (right bucket) (sl bucket) (sr bucket), tt)
      | inr other ↦ rw other (sl k, sr k)
    ]

    merge_span-Holds :
        (other self : DapAggregateSpan c) (left right : DapBatchBucket → List (OutShare c f))
        → Distinct other
        → Holds self left
        → Holds other right
        → ((k : DapBatchBucket) → HasSize laws f n (left k))
        → ((k : DapBatchBucket) → HasSize laws f n (right k))
        → ((k : DapBatchBucket) → length (left k) + length (right k) < u64_end)
        → (after : DapAggregateSpan c) × (merge_span self other ≡ ok after)
          × Holds after (λ k. left k ++ right k)
    unfolding merge_span get
    merge_span-Holds [] self left right distinct h h' sl sr fits =
        (self, refl, λ k. rw (entry_of-none (right k) (h' k), append-nil (left k)) (h k))
    merge_span-Holds ((bucket, entry) ∷ rest) self left right distinct h h' sl sr fits =
        let there = rw (bucket_eq_refl bucket) at (h' bucket) in
        let (middle, e, hm) =
          merge-entry bucket entry self left right h there (sl bucket) (sr bucket) (fits bucket) in
        let (after, e', ha) =
          merge_span-Holds rest middle (joined bucket left right) (without bucket right) distinct.1
            hm (Holds-rest bucket entry rest right distinct.0 h')
            (λ k. (HasSize-joined_bucket bucket k left right sl sr).0)
            (λ k. (HasSize-joined_bucket bucket k left right sl sr).1)
            (λ k. omega (
              arith,
              length-append (joined bucket left right k) (without bucket right k),
              ap length (joined-without bucket k left right),
              length-append (left k) (right k),
              fits k,
            )) in
        (after, rw (e, e'), λ k. rw (sym (joined-without bucket k left right)) (ha k))

    -- Let two spans represent two lists of reports: every bucket that has reports has their summary,
    -- and no other bucket is there. If no bucket stands twice in the second, the output shares all
    -- have one size, there are fewer than 2^64 reports together and the operations have the laws of
    -- `CryptoLaws`, then merging the second span into the first succeeds, and the result represents
    -- the concatenated list in the same way.
    pub merge_span-summary :
        (xs ys : List (OutShare c f)) (self other : DapAggregateSpan c)
        → HasSize laws f n xs
        → HasSize laws f n ys
        → length xs + length ys < u64_end
        → Distinct other
        → Represents laws f t sel self xs
        → Represents laws f t sel other ys
        → (after : DapAggregateSpan c) × (merge_span self other ≡ ok after)
          × Represents laws f t sel after (xs ++ ys)
    merge_span-summary xs ys self other sx sy fits distinct h h' =
        let (after, e, ha) =
          merge_span-Holds other self (λ k. reports_in laws f t sel k xs)
            (λ k. reports_in laws f t sel k ys) distinct h h'
            (λ k. reports_in-HasSize laws f t sel n k xs sx)
            (λ k. reports_in-HasSize laws f t sel n k ys sy)
            (λ k.
              omega (
                arith,
                length-reports_in laws f t sel k xs,
                length-reports_in laws f t sel k ys,
              )) in
        (after, e, λ k. rw (reports_in-append laws f t sel k xs ys) (ha k))
