-- ===== src/Testing/Batches/Closed.antt =====
-- The marking of a batch as collected against the fetching of an aggregate share (`mark_collected`,
-- `get_agg_share` of `InMemoryAggregator` in crates/daphne/src/testing/mod.rs).
use daphne.Common.{
  ◌≡◌, refl, sym, ◌∙◌, inl, inr, ◌≢◌, ◌&&◌, Bool, true, false, List, [], ◌∷◌, In, if◌then◌else◌,
}
use daphne.Errors.{Outcome, ok, err, panic, abort, batch_overlap}
use daphne.Messages.Ids.{TaskId}
use daphne.Messages.Batch.{BatchSelector}
use daphne.Task.{DapTaskConfig, DapBatchBucket, batch_span_for_sel}
use daphne.Share.{Crypto, DapAggregateShare, reset, merge}
use daphne.Span.{bytes_eq, bucket_eq}
use daphne.Testing.{AggregateStore, InMemoryAggregateStore, for_bucket}
use daphne.Testing.Batches.{
  is_collected, then_merge, share_in, share_of_span, get_agg_share, mark_all, mark_span,
  mark_collected,
}
use daphne.Testing.Batches.Collected.{collected_at, collected_at-for_bucket, mark_all-collected}

module _ {c : Crypto} (task_id : TaskId) where
  abbrev same : AggregateStore c → AggregateStore c × AggregateStore c
  same entry = (entry, entry)

  collected_of_if :
      (b : Bool) (e e0 : AggregateStore c) (b0 : Bool) (x y x' y' : InMemoryAggregateStore c)
      → e0.collected ≡ b0
      → (if◌then◌else◌ {A = AggregateStore c × InMemoryAggregateStore c} b
          (e, x)
          (e0, y)).0.collected
        ≡ (if◌then◌else◌ {A = Bool × InMemoryAggregateStore c} b (e.collected, x') (b0, y')).0
  collected_of_if true e e0 b0 x y x' y' h = refl
  collected_of_if false e e0 b0 x y x' y' h = h

  for_bucket-collected :
      (bucket : DapBatchBucket) (store : InMemoryAggregateStore c)
      → (for_bucket task_id bucket same store).0.collected ≡ collected_at task_id bucket store
  unfolding for_bucket
  for_bucket-collected bucket [] = refl
  for_bucket-collected bucket ((key, entry) ∷ store) =
      let r = for_bucket task_id bucket same store in
      let r' = for_bucket task_id bucket is_collected store in
      collected_of_if (bytes_eq key.0 task_id && bucket_eq key.1 bucket) entry r.0 r'.0
        ((key, entry) ∷ store) ((key, entry) ∷ r.1) ((key, entry) ∷ store) ((key, entry) ∷ r'.1)
        (for_bucket-collected bucket store)

  refused_unless :
      (b : Bool) (merged : Outcome (DapAggregateShare c))
      (rest : DapAggregateShare c → Outcome (DapAggregateShare c) × InMemoryAggregateStore c)
      (store : InMemoryAggregateStore c) (given : DapAggregateShare c)
      → (b ≡ false → (agg_share : DapAggregateShare c) → (rest agg_share).0 ≢ ok given)
      → (if b then (err (abort batch_overlap), store) else then_merge rest store merged).0
        ≢ ok given
  unfolding then_merge
  refused_unless true merged rest store given h = λ e. cc
  refused_unless false (ok agg_share) rest store given h = h refl agg_share
  refused_unless false (err x) rest store given h = λ e. cc
  refused_unless false panic rest store given h = λ e. cc

  share_in-collected :
      (bucket : DapBatchBucket) (buckets : List DapBatchBucket)
      (agg_share given : DapAggregateShare c) (store : InMemoryAggregateStore c)
      → In bucket buckets
      → collected_at task_id bucket store ≡ true
      → (share_in task_id buckets agg_share store).0 ≢ ok given
  unfolding share_in
  share_in-collected bucket [] agg_share given store h there = elim h [ ]
  share_in-collected bucket (b ∷ buckets) agg_share given store h there =
      let r = for_bucket task_id b same store in
      refused_unless r.0.collected (merge agg_share r.0.agg_share)
        (λ agg_share'. share_in task_id buckets agg_share' r.1) r.1 given
        (λ not_yet agg_share'. elim h [
          | inl e ↦
              let there' = rw e at there in
              absurd (
                let both : true ≡ false =
                  sym there' ∙ sym (for_bucket-collected b store) ∙ not_yet in
                cc)
          | inr h' ↦
              share_in-collected bucket buckets agg_share' given r.1 h'
                (collected_at-for_bucket task_id bucket b same store (λ e h''. h'') there)
        ])

  -- No aggregate share is given out for a batch that shares a bucket with a collected one: if a
  -- bucket is in the spans of two batches and the storage in memory has marked the first as
  -- collected, then fetching the aggregate share of the second does not succeed, whatever the
  -- storage held before.
  pub mark_collected-closes :
      (t : DapTaskConfig) (sel sel' : BatchSelector) (bucket : DapBatchBucket)
      (buckets buckets' : List DapBatchBucket) (store : InMemoryAggregateStore c)
      (given : DapAggregateShare c)
      → batch_span_for_sel t sel ≡ ok buckets
      → batch_span_for_sel t sel' ≡ ok buckets'
      → In bucket buckets
      → In bucket buckets'
      → (get_agg_share task_id t sel' (mark_collected task_id t sel store).1).0 ≢ ok given
  unfolding get_agg_share share_of_span mark_collected mark_span
  mark_collected-closes t sel sel' bucket buckets buckets' store given e e' h h' =
      rw (e, e')
        (share_in-collected bucket buckets' reset given (mark_all task_id buckets store) h'
          (mark_all-collected task_id bucket buckets store h))
