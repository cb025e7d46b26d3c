-- ===== src/Span/Buckets.antt =====
-- The map of a span: what is found in it after an entry has been updated.
use daphne.Common.{
  ◌≡◌, refl, sym, Bool, true, false, ◌&&◌, inl, inr, some, [], ◌∷◌, ◌==◌, ==_iff, if◌then◌else◌,
  Bool-cases, ℕ,
}
use daphne.Codec.Base.{Bytes}
use daphne.Errors.{Outcome, ok}
use daphne.Task.{DapBatchBucket}
use daphne.Share.{Crypto}
use daphne.Span.{bytes_eq, bucket_eq, Entry, DapAggregateSpan, get, or_default, update_entry}

and_parts : (a b : Bool) → (a && b) ≡ true → (a ≡ true) × (b ≡ true)
and_parts true b h = (refl, h)
and_parts false b h = cc

==_refl : (n : ℕ) → (n == n) ≡ true
==_refl n = (==_iff n n).1 refl

pub bytes_eq_sound : (xs ys : Bytes) → bytes_eq xs ys ≡ true → xs ≡ ys
unfolding bytes_eq
bytes_eq_sound [] [] h = refl
bytes_eq_sound [] (y ∷ ys) h = cc
bytes_eq_sound (x ∷ xs) [] h = cc
bytes_eq_sound (x ∷ xs) (y ∷ ys) h =
    let (head, tail) = and_parts (x == y) (bytes_eq xs ys) h in
    rw ((==_iff x y).0 head, bytes_eq_sound xs ys tail)

pub bytes_eq_refl : (xs : Bytes) → bytes_eq xs xs ≡ true
unfolding bytes_eq
bytes_eq_refl [] = refl
bytes_eq_refl (x ∷ xs) = rw (==_refl x, bytes_eq_refl xs)

pub bucket_eq_sound : (a b : DapBatchBucket) → bucket_eq a b ≡ true → a ≡ b
unfolding bucket_eq
bucket_eq_sound (DapBatchBucket.fixed_size id s) (DapBatchBucket.fixed_size id' s') h =
    let (ids, shards) = and_parts (bytes_eq id id') (s == s') h in
    rw (bytes_eq_sound id id' ids, (==_iff s s').0 shards)
bucket_eq_sound (DapBatchBucket.time_interval w s) (DapBatchBucket.time_interval w' s') h =
    let (windows, shards) = and_parts (w == w') (s == s') h in
    rw ((==_iff w w').0 windows, (==_iff s s').0 shards)
bucket_eq_sound (DapBatchBucket.fixed_size id s) (DapBatchBucket.time_interval w' s') h = cc
bucket_eq_sound (DapBatchBucket.time_interval w s) (DapBatchBucket.fixed_size id' s') h = cc

pub bucket_eq_refl : (a : DapBatchBucket) → bucket_eq a a ≡ true
unfolding bucket_eq
bucket_eq_refl (DapBatchBucket.fixed_size id s) = rw (bytes_eq_refl id, ==_refl s)
bucket_eq_refl (DapBatchBucket.time_interval w s) = rw (==_refl w, ==_refl s)

bucket_eq-false :
    (a b k : DapBatchBucket) → bucket_eq a b ≡ false → bucket_eq b k ≡ true → bucket_eq a k ≡ false
bucket_eq-false a b k h same = rw (sym (bucket_eq_sound b k same)) h

module _ {c : Crypto} (bucket : DapBatchBucket) (f : Entry c → Outcome (Entry c))
    (new : Entry c) where
  -- What is found in the map `after`, when `bucket` alone has changed from `before`.
  abbrev Updated : DapAggregateSpan c → DapAggregateSpan c → Type 0
  Updated before after =
      (k : DapBatchBucket) → get after k ≡ (if bucket_eq bucket k then some new else get before k)

  Updated-here :
      (key : DapBatchBucket) (entry : Entry c) (span : DapAggregateSpan c)
      → key ≡ bucket
      → Updated ((key, entry) ∷ span) ((key, new) ∷ span)
  unfolding get
  Updated-here key entry span same k = elim (Bool-cases (bucket_eq bucket k)) [
    | inl h ↦ rw (same, h)
    | inr h ↦ rw (same, h)
  ]

  Updated-there :
      (key : DapBatchBucket) (entry : Entry c) (before after : DapAggregateSpan c)
      → bucket_eq key bucket ≡ false
      → Updated before after
      → Updated ((key, entry) ∷ before) ((key, entry) ∷ after)
  unfolding get
  Updated-there key entry before after other u k = elim (Bool-cases (bucket_eq bucket k)) [
    | inl h ↦ rw (bucket_eq-false key bucket k other h, u k, h)
    | inr h ↦ rw (u k, h)
  ]

  pub update_entry-ok :
      (span : DapAggregateSpan c)
      → f (or_default (get span bucket)) ≡ ok new
      → (after : DapAggregateSpan c) × (update_entry bucket f span ≡ ok after) × Updated span after
  unfolding update_entry get
  update_entry-ok [] h = ((bucket, new) ∷ [], rw h, λ k. refl)
  update_entry-ok ((key, entry) ∷ span) h = elim (Bool-cases (bucket_eq key bucket)) [
    | inl same ↦
        let here : f entry ≡ ok new = rw same at h in
        (
          (key, new) ∷ span,
          rw (same, here),
          Updated-here key entry span (bucket_eq_sound key bucket same),
        )
    | inr other ↦
        let there : f (or_default (get span bucket)) ≡ ok new = rw other at h in
        let (after, e, u) = update_entry-ok span there in
        ((key, entry) ∷ after, rw (other, e), Updated-there key entry span after other u)
  ]
