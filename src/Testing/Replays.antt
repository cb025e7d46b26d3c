-- ===== src/Testing/Replays.antt =====
-- Replays: a report that is in the set of its bucket is not aggregated again.
use daphne.Common.{
  ◌≡◌, refl, sym, inl, inr, true, Bool-cases, List, [], ◌∷◌, ◌++◌, In, In-append_left,
}
use daphne.Messages.Ids.{ReportId}
use daphne.Share.{Crypto, DapAggregateShare}
use daphne.Protocol.Init.{is_processed}
use daphne.Protocol.Init.Distinct.{In-is_processed}
use daphne.Helper.{refused, already_collected, replays_detected}
use daphne.Testing.{AggregateStore, replayed_in, put_new, put_unless, put_bucket}

replayed_in-In :
    (reports ids : List ReportId) (id : ReportId)
    → In id ids
    → In id reports
    → In id (replayed_in reports ids)
unfolding replayed_in
replayed_in-In reports [] id h there = h
replayed_in-In reports (x ∷ xs) id (inl e) there =
    let seen : is_processed x reports ≡ true = rw (sym e) (In-is_processed id reports there) in
    rw seen (inl e)
replayed_in-In reports (x ∷ xs) id (inr h) there = elim (Bool-cases (is_processed x reports)) [
  | inl seen ↦ rw seen (inr (replayed_in-In reports xs id h there))
  | inr new ↦ rw new (replayed_in-In reports xs id h there)
]

module _ {c : Crypto} (agg_share_delta : DapAggregateShare c) where
  put_unless-replay :
      (ids : List ReportId) (entry : AggregateStore c) (id : ReportId) (replayed : List ReportId)
      → In id replayed
      → put_unless agg_share_delta ids entry replayed ≡ (refused (replays_detected replayed), entry)
  unfolding put_unless
  put_unless-replay ids entry id [] h = elim h [ ]
  put_unless-replay ids entry id (x ∷ replayed) h = refl

  -- If a report of a bucket is in the set of the bucket already, then the storage in memory refuses
  -- the bucket, names the report among the replays, and leaves the bucket as it is.
  pub put_bucket-replay :
      (ids : List ReportId) (entry : AggregateStore c) (id : ReportId)
      → In id ids
      → In id entry.reports
      → (replayed : List ReportId) × (put_bucket agg_share_delta ids entry
          ≡ (refused (replays_detected replayed), entry))
        × In id replayed
  unfolding put_bucket
  put_bucket-replay ids entry id h there =
      let again = replayed_in-In entry.reports ids id h there in
      (
        replayed_in entry.reports ids,
        put_unless-replay ids entry id (replayed_in entry.reports ids) again,
        again,
      )

  -- If a bucket has been collected and none of the reports is in its set, then the storage in memory
  -- refuses the bucket as collected, but it puts the reports into the set: the same call refuses the
  -- bucket as a replay of each of its reports when it is made again.
  pub put_bucket-collected :
      (ids : List ReportId) (entry : AggregateStore c) (id : ReportId)
      → entry.collected ≡ true
      → replayed_in entry.reports ids ≡ []
      → In id ids
      → (after : AggregateStore c) × (replayed : List ReportId) × (put_bucket agg_share_delta ids
            entry
          ≡ (refused already_collected, after))
        × (put_bucket agg_share_delta ids after ≡ (refused (replays_detected replayed), after))
        × In id replayed
  unfolding put_bucket put_unless put_new
  put_bucket-collected ids entry id collected new h =
      let after : AggregateStore c = record {
        agg_share = entry.agg_share;
        collected = entry.collected;
        reports = ids ++ entry.reports;
      } in
      let (replayed, e, again) =
        put_bucket-replay ids after id h (In-append_left id ids entry.reports h) in
      (after, replayed, rw (new, collected) refl, e, again)
