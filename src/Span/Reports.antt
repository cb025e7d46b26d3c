-- ===== src/Span/Reports.antt =====
-- Which reports are in a span, and that adding a report keeps them.
use daphne.Common.{
  map, map-append, In-append_left, In-append_right, ℕ, refl, Bool-cases, inl, inr, ◌⊎◌, [], ◌∷◌,
  ◌++◌, In, none,
}
use daphne.Errors.{Outcome, ok, Returns, Returns-bind, Returns-any, ◌>>=◌}
use daphne.Messages.Ids.{ReportId}
use daphne.Messages.Batch.{PartialBatchSelector}
use daphne.Task.{DapTaskConfig, DapBatchBucket, is_valid_part_batch_sel, bucket_for}
use daphne.Share.{share_add_out_share, Crypto, VdafAggregateShare, DapAggregateShare}
use daphne.Span.{bucket_eq, shard, Entry, DapAggregateSpan, or_default, update_entry, add_out_share}

abbrev report_id_in : ReportId × ℕ → ReportId
report_id_in r = r.0

module _ {c : Crypto} where
  -- The report is in the entry.
  abbrev pub InEntry : ReportId → Entry c → Type 0
  InEntry id entry = In id (map report_id_in entry.1)

  -- The report is in some bucket.
  abbrev pub InSpan : ReportId → DapAggregateSpan c → Type 0
  InSpan id [] = ⊥
  InSpan id ((bucket, entry) ∷ span) = InEntry id entry ⊎ InSpan id span

  -- Nothing is lost, and `id` is there.
  abbrev pub Gained : ReportId → DapAggregateSpan c → DapAggregateSpan c → Type 0
  Gained id before after = ((i : ReportId) → InSpan i before → InSpan i after) × InSpan id after

  abbrev EntryGained : ReportId → Entry c → Entry c → Type 0
  EntryGained id before after =
      ((i : ReportId) → InEntry i before → InEntry i after) × InEntry id after

  update_entry-Gained :
      (id : ReportId) (bucket : DapBatchBucket) (f : Entry c → Outcome (Entry c))
      (span : DapAggregateSpan c)
      → ((entry : Entry c) → Returns (EntryGained id entry) (f entry))
      → Returns (Gained id span) (update_entry bucket f span)
  unfolding update_entry
  update_entry-Gained id bucket f [] h =
      Returns-bind (EntryGained id (or_default none)) (Gained id []) (f (or_default none)) _
        (h (or_default none)) (λ entry g. ((λ i h'. elim h' [ ]), inl g.1))
  update_entry-Gained id bucket f ((key, entry) ∷ span) h =
      elim (Bool-cases (bucket_eq key bucket)) [
        | inl same ↦ rw same (
            Returns-bind (EntryGained id entry) (Gained id ((key, entry) ∷ span)) (f entry) _
              (h entry)
              (λ entry' g. (λ i h'. elim h' [ inl a ↦ inl (g.0 i a) | inr b ↦ inr b ], inl g.1)))
        | inr other ↦ rw other (
            Returns-bind (Gained id span) (Gained id ((key, entry) ∷ span))
              (update_entry bucket f span) _ (update_entry-Gained id bucket f span h)
              (λ span' g. (λ i h'. elim h' [ inl a ↦ inl a | inr b ↦ inr (g.0 i b) ], inr g.1)))
      ]

  entry-grown :
      (id : ReportId) (time : ℕ) (agg_share : DapAggregateShare c) (entry : Entry c)
      → EntryGained id entry (agg_share, entry.1 ++ ((id, time) ∷ []))
  entry-grown id time agg_share entry =
      let e = map-append report_id_in entry.1 ((id, time) ∷ []) in
      (
        λ i h. rw e (In-append_left i (map report_id_in entry.1) (id ∷ []) h),
        rw e (In-append_right id (map report_id_in entry.1) (id ∷ []) (inl refl)),
      )

  pub add_out_share-Gained :
      (t : DapTaskConfig) (sel : PartialBatchSelector) (id : ReportId) (time : ℕ)
      (agg_data : VdafAggregateShare c) (span : DapAggregateSpan c)
      → Returns (Gained id span) (add_out_share t sel id time agg_data span)
  unfolding add_out_share
  add_out_share-Gained t sel id time agg_data span =
      let add : Entry c → Outcome (Entry c) = λ entry. (do
        agg_share ← share_add_out_share entry.0 id time agg_data
        ok (agg_share, entry.1 ++ ((id, time) ∷ []))) in
      elim (Bool-cases (is_valid_part_batch_sel t.query sel)) [
        | inl valid ↦ rw valid (
            Returns-bind (λ _. Unit {0}) (Gained id span)
              (bucket_for t sel time (shard c.sha256 id t.num_agg_span_shards)) _ (Returns-any _)
              (λ bucket _. update_entry-Gained id bucket add span (λ entry.
                Returns-bind (λ _. Unit {0}) (EntryGained id entry)
                  (share_add_out_share entry.0 id time agg_data) _ (Returns-any _)
                  (λ agg_share _. entry-grown id time agg_share entry))))
        | inr invalid ↦ rw invalid tt
      ]
