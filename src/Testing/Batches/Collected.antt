-- ===== src/Testing/Batches/Collected.antt =====
-- The marking of a batch as collected against the overlap test (`mark_collected`, `is_batch_overlapping`
-- of `InMemoryAggregator` in crates/daphne/src/testing/mod.rs).
use daphne.Common.{
  ◌≡◌, refl, sym, ap, ◌∙◌, inl, inr, Bool, true, false, Bool-cases, ◌&&◌, List, [], ◌∷◌, In,
  if◌then◌else◌,
}
use daphne.Errors.{ok}
use daphne.Messages.Ids.{TaskId}
use daphne.Messages.Batch.{BatchSelector}
use daphne.Task.{DapTaskConfig, DapBatchBucket, batch_span_for_sel}
use daphne.Share.{Crypto}
use daphne.Span.{bytes_eq, bucket_eq}
use daphne.Span.Buckets.{bytes_eq_refl, bucket_eq_refl}
use daphne.Testing.{new_store, AggregateStore, InMemoryAggregateStore, for_bucket}
use daphne.Testing.Batches.{
  is_collected, set_collected, overlapping_in, overlapping, is_batch_overlapping, mark_all,
  mark_span, mark_collected,
}

abbrev found : TaskId → TaskId × DapBatchBucket → DapBatchBucket → Bool
found task_id key bucket = bytes_eq key.0 task_id && bucket_eq key.1 bucket

first_of_if :
    {A B : Type 0} (b : Bool) (x y : A × B) → (if b then x else y).0 ≡ (if b then x.0 else y.0)
first_of_if true x y = refl
first_of_if false x y = refl

module _ {c : Crypto} (task_id : TaskId) where
  -- Whether the bucket has been collected.
  abbrev pub collected_at : DapBatchBucket → InMemoryAggregateStore c → Bool
  collected_at bucket store = (for_bucket task_id bucket is_collected store).0

  abbrev pub KeepsCollected : {B : Type 0} → (AggregateStore c → B × AggregateStore c) → Type 0
  KeepsCollected f = (e : AggregateStore c) → e.collected ≡ true → (f e).1.collected ≡ true

  collected_at-cons :
      (bucket : DapBatchBucket) (key : TaskId × DapBatchBucket) (entry : AggregateStore c)
      (store : InMemoryAggregateStore c)
      → collected_at bucket ((key, entry) ∷ store)
        ≡ (if found task_id key bucket then entry.collected else collected_at bucket store)
  unfolding for_bucket
  collected_at-cons bucket key entry store =
      let r = for_bucket task_id bucket is_collected store in
      first_of_if (found task_id key bucket) (entry.collected, (key, entry) ∷ store)
        (r.0, (key, entry) ∷ r.1)

  pub collected_at-for_bucket :
      {B : Type 0} (bucket other : DapBatchBucket) (f : AggregateStore c → B × AggregateStore c)
      (store : InMemoryAggregateStore c)
      → KeepsCollected f
      → collected_at bucket store ≡ true
      → collected_at bucket (for_bucket task_id other f store).1 ≡ true
  unfolding for_bucket
  collected_at-for_bucket bucket other f [] keeps h = cc
  collected_at-for_bucket bucket other f ((key, entry) ∷ store) keeps h =
      let h' = sym (collected_at-cons bucket key entry store) ∙ h in
      let rest = (for_bucket task_id other f store).1 in
      elim (Bool-cases (found task_id key other)) [
        | inl x ↦ rw x (
            collected_at-cons bucket key (f entry).1 store
            ∙ elim (Bool-cases (found task_id key bucket)) [
              | inl y ↦ rw y (keeps entry (rw y at h'))
              | inr y ↦ rw y (rw y at h')
            ])
        | inr x ↦ rw x (
            collected_at-cons bucket key entry rest ∙ elim (Bool-cases (found task_id key bucket)) [
              | inl y ↦ rw y (rw y at h')
              | inr y ↦ rw y (collected_at-for_bucket bucket other f store keeps (rw y at h'))
            ])
      ]

  collected_at-set_collected :
      (bucket : DapBatchBucket) (store : InMemoryAggregateStore c)
      → collected_at bucket (for_bucket task_id bucket set_collected store).1 ≡ true
  unfolding for_bucket
  collected_at-set_collected bucket [] =
      collected_at-cons bucket (task_id, bucket) (set_collected new_store).1 []
      ∙ rw (bytes_eq_refl task_id, bucket_eq_refl bucket) refl
  collected_at-set_collected bucket ((key, entry) ∷ store) =
      let rest = (for_bucket task_id bucket set_collected store).1 in
      elim (Bool-cases (found task_id key bucket)) [
        | inl x ↦ rw x (collected_at-cons bucket key (set_collected entry).1 store ∙ rw x refl)
        | inr x ↦ rw x (
            collected_at-cons bucket key entry rest
            ∙ rw x (collected_at-set_collected bucket store))
      ]

  collected_at-mark_all :
      (bucket : DapBatchBucket) (buckets : List DapBatchBucket) (store : InMemoryAggregateStore c)
      → collected_at bucket store ≡ true
      → collected_at bucket (mark_all task_id buckets store) ≡ true
  unfolding mark_all
  collected_at-mark_all bucket [] store h = h
  collected_at-mark_all bucket (b ∷ buckets) store h =
      collected_at-mark_all bucket buckets (for_bucket task_id b set_collected store).1
        (collected_at-for_bucket bucket b set_collected store (λ e h'. refl) h)

  pub mark_all-collected :
      (bucket : DapBatchBucket) (buckets : List DapBatchBucket) (store : InMemoryAggregateStore c)
      → In bucket buckets
      → collected_at bucket (mark_all task_id buckets store) ≡ true
  unfolding mark_all
  mark_all-collected bucket [] store h = elim h [ ]
  mark_all-collected bucket (b ∷ buckets) store (inl e) =
      collected_at-mark_all bucket buckets (for_bucket task_id b set_collected store).1
        (rw e (collected_at-set_collected b store))
  mark_all-collected bucket (b ∷ buckets) store (inr h) =
      mark_all-collected bucket buckets (for_bucket task_id b set_collected store).1 h

  overlapping_in-collected :
      (bucket : DapBatchBucket) (buckets : List DapBatchBucket) (store : InMemoryAggregateStore c)
      → In bucket buckets
      → collected_at bucket store ≡ true
      → (overlapping_in task_id buckets store).0 ≡ true
  unfolding overlapping_in
  overlapping_in-collected bucket [] store h there = elim h [ ]
  overlapping_in-collected bucket (b ∷ buckets) store h there =
      elim (Bool-cases (collected_at b store)) [
        | inl x ↦ rw x refl
        | inr x ↦ elim h [
          | inl e ↦ let there' = rw e at there in cc
          | inr h' ↦ rw x (
              overlapping_in-collected bucket buckets (for_bucket task_id b is_collected store).1 h'
                (collected_at-for_bucket bucket b is_collected store (λ e h''. h'') there))
        ]
      ]

  -- A batch that has been marked as collected keeps out every batch of the task that shares a bucket with it:
  -- if a bucket is in the spans of two batches and the storage in memory has marked the first as
  -- collected, then it reports that the second overlaps, whatever the storage held before.
  pub mark_collected-overlapping :
      (t : DapTaskConfig) (sel sel' : BatchSelector) (bucket : DapBatchBucket)
      (buckets buckets' : List DapBatchBucket) (store : InMemoryAggregateStore c)
      → batch_span_for_sel t sel ≡ ok buckets
      → batch_span_for_sel t sel' ≡ ok buckets'
      → In bucket buckets
      → In bucket buckets'
      → (is_batch_overlapping task_id t sel' (mark_collected task_id t sel store).1).0 ≡ ok true
  unfolding is_batch_overlapping overlapping mark_collected mark_span
  mark_collected-overlapping t sel sel' bucket buckets buckets' store e e' h h' =
      rw (e, e')
        (ap ok (
          overlapping_in-collected bucket buckets' (mark_all task_id buckets store) h'
            (mark_all-collected bucket buckets store h)))
