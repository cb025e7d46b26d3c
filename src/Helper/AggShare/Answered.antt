-- ===== src/Helper/AggShare/Answered.antt =====
-- What the Helper checks of an aggregate-share request, from its decoding on.
use mathlib.Core.Path.{subst}
use daphne.Common.{
  ℕ, ◌≡◌, refl, sym, ap, ◌∙◌, ◌⊎◌, inl, inr, Bool, true, false, ◌==◌, ==_iff, Bool-cases,
  if◌then◌else◌,
}
use daphne.Codec.Base as Codec
use daphne.Codec.Base.{Bytes, Writer}
use daphne.Codec.Prio.{Prio}
use daphne.Errors.{invalid_batch_size, Outcome, ok, err, panic, abort, bind_parts}
use daphne.Messages.Ids.{TaskId}
use daphne.Messages.Batch.{query_of}
use daphne.Messages.Compare.{constant_time_eq, constant_time_eq_iff}
use daphne.Messages.Collection.{AggregateShareReq, decode_agg_share_req}
use daphne.Task.{DapTaskConfig, DapGlobalConfig, is_report_count_compatible}
use daphne.Share.{Crypto, VdafAggregateShare, DapAggregateShare}
use daphne.Roles.{check_batch}
use daphne.Protocol.Init.{DapAggregationParam, decode_agg_param, decoded_param}
use daphne.Protocol.AggShare.{HpkeEncrypter}
use daphne.Helper.AggShare.{
  BatchStore, decoded_req, or_false, check_agg_share, check_agg_share_req, agg_share_resp,
  mark_and_answer, answer_agg_share_req,
}

or_false-true : (m : Outcome Bool) → or_false m ≡ ok true → m ≡ ok true
unfolding or_false
or_false-true (ok b) h = h
or_false-true (err e) h = cc
or_false-true panic h = cc

compatible :
    (b : Bool)
    → ◌≡◌ {A = Outcome (Unit {0})} (if b then ok tt else err (abort invalid_batch_size)) (ok tt)
    → b ≡ true
compatible true h = refl
compatible false h = cc

module _ (p : Prio) {c : Crypto} (encode_agg_data : VdafAggregateShare c → Writer)
    (hpke_encrypt : HpkeEncrypter) (s : BatchStore c) (t : DapTaskConfig) (g : DapGlobalConfig)
    (task_id : TaskId) where
  -- The Leader has computed the same count and checksum, and the count fits the task.
  abbrev pub IsMatching : AggregateShareReq → DapAggregateShare c → Type 0
  IsMatching req agg_share =
      (req.report_count ≡ agg_share.report_count)
      × (req.checksum ≡ agg_share.checksum)
      × (is_report_count_compatible t agg_share.report_count ≡ ok true)

  check_agg_share-IsMatching :
      (req : AggregateShareReq) (agg_share : DapAggregateShare c)
      → check_agg_share p encode_agg_data hpke_encrypt s t g task_id req agg_share ≡ ok tt
      → IsMatching req agg_share
  unfolding check_agg_share
  check_agg_share-IsMatching req agg_share h =
      elim (Bool-cases (req.report_count == agg_share.report_count)) [
        | inr other ↦ let h' = rw other at h in cc
        | inl same ↦ elim (Bool-cases (constant_time_eq req.checksum agg_share.checksum)) [
          | inr other' ↦ let h' = rw (same, other') at h in cc
          | inl same' ↦
              let h' = rw (same, same') at h in
              let (b, e, rest) =
                bind_parts (or_false (is_report_count_compatible t agg_share.report_count)) _ tt
                  h' in
              (
                (==_iff req.report_count agg_share.report_count).0 same,
                (constant_time_eq_iff req.checksum agg_share.checksum).0 same',
                or_false-true (is_report_count_compatible t agg_share.report_count)
                    (e ∙ ap ok (compatible b rest)),
              )
        ]
      ]

  -- What the checks read before the comparison: the request, the parameter, the batch and the share.
  abbrev pub IsRead :
      Bytes → ℕ → s.Store → AggregateShareReq → DapAggregationParam → DapAggregateShare c → Type 0
  IsRead payload now store req agg_param agg_share =
      (p.get_decoded AggregateShareReq (decode_agg_share_req p) payload ≡ Codec.ok req)
      × (p.get_decoded DapAggregationParam (decode_agg_param t.vdaf) req.agg_param
          ≡ Codec.ok agg_param)
      × (check_batch (s.batches store) t g task_id (query_of req.batch_sel) req.agg_param now
          ≡ ok tt)
      × (s.get_agg_share task_id req.batch_sel store ≡ ok agg_share)

  decoded_req-ok :
      (r : Codec.Result AggregateShareReq) (req : AggregateShareReq)
      → decoded_req r ≡ ok req
      → r ≡ Codec.ok req
  unfolding decoded_req
  decoded_req-ok (Codec.ok x) req h = cc
  decoded_req-ok (Codec.err e) req h = cc
  decoded_req-ok Codec.panic req h = cc

  decoded_param-ok :
      (r : Codec.Result DapAggregationParam) (agg_param : DapAggregationParam)
      → decoded_param r ≡ ok agg_param
      → r ≡ Codec.ok agg_param
  unfolding decoded_param
  decoded_param-ok (Codec.ok x) agg_param h = cc
  decoded_param-ok (Codec.err e) agg_param h = cc
  decoded_param-ok Codec.panic agg_param h = cc

  abbrev Checked : Type 0
  Checked = AggregateShareReq × DapAggregationParam × DapAggregateShare c

  check_agg_share_req-IsRead :
      (payload : Bytes) (now : ℕ) (store : s.Store) (x : Checked)
      → check_agg_share_req p encode_agg_data hpke_encrypt s t g task_id payload now store ≡ ok x
      → IsRead payload now store x.0 x.1 x.2 × IsMatching x.0 x.2
  unfolding check_agg_share_req
  check_agg_share_req-IsRead payload now store x h =
      let (req, h1, k1) =
        bind_parts (decoded_req (p.get_decoded AggregateShareReq (decode_agg_share_req p) payload))
          _ x h in
      let (agg_param, h2, k2) =
        bind_parts
          (decoded_param
            (p.get_decoded DapAggregationParam (decode_agg_param t.vdaf) req.agg_param))
          _ x k1 in
      let (u, h3, k3) =
        bind_parts
          (check_batch (s.batches store) t g task_id (query_of req.batch_sel) req.agg_param now) _ x
          k2 in
      let (agg_share, h4, k4) = bind_parts (s.get_agg_share task_id req.batch_sel store) _ x k3 in
      let (w, h5, k5) =
        bind_parts (check_agg_share p encode_agg_data hpke_encrypt s t g task_id req agg_share) _ x
          k4 in
      let same : (req, agg_param, agg_share) ≡ x = cc in
      subst (λ y. IsRead payload now store y.0 y.1 y.2 × IsMatching y.0 y.2) same
        (
          (decoded_req-ok _ req h1, decoded_param-ok _ agg_param h2, h3, h4),
          check_agg_share-IsMatching req agg_share h5,
        )

  agg_share_resp-marked :
      (x : Checked) (marked : Outcome (Unit {0}) × s.Store) (answer : Bytes) (store' : s.Store)
      → agg_share_resp p encode_agg_data hpke_encrypt s t g task_id x.0 x.1 x.2 marked
        ≡ (ok answer, store')
      → marked ≡ (ok tt, store')
  unfolding agg_share_resp
  agg_share_resp-marked x (ok tt, store) answer store' h = ap (λ r. (ok tt, r.1)) h
  agg_share_resp-marked x (err e, store) answer store' h = let h' = ap (λ r. r.0) h in cc
  agg_share_resp-marked x (panic, store) answer store' h = let h' = ap (λ r. r.0) h in cc

  mark_and_answer-marked :
      (store : s.Store) (r : Outcome Checked) (answer : Bytes) (store' : s.Store)
      → mark_and_answer p encode_agg_data hpke_encrypt s t g task_id store r ≡ (ok answer, store')
      → (x : Checked) × (r ≡ ok x)
        × (s.mark_collected task_id x.0.batch_sel store ≡ (ok tt, store'))
  unfolding mark_and_answer
  mark_and_answer-marked store (ok x) answer store' h = (
    x,
    refl,
    agg_share_resp-marked x (s.mark_collected task_id x.0.batch_sel store) answer store' h,
  )
  mark_and_answer-marked store (err e) answer store' h = let h' = ap (λ r. r.0) h in cc
  mark_and_answer-marked store panic answer store' h = let h' = ap (λ r. r.0) h in cc

  pub answer_agg_share_req-IsMatching :
      (payload : Bytes) (now : ℕ) (store : s.Store) (answer : Bytes) (store' : s.Store)
      → answer_agg_share_req p encode_agg_data hpke_encrypt s t g task_id payload now store
        ≡ (ok answer, store')
      → (req : AggregateShareReq) × (agg_param : DapAggregationParam)
        × (agg_share : DapAggregateShare c) × IsRead payload now store req agg_param agg_share
        × IsMatching req agg_share
        × (s.mark_collected task_id req.batch_sel store ≡ (ok tt, store'))
  unfolding answer_agg_share_req
  answer_agg_share_req-IsMatching payload now store answer store' h =
      let (x, e, marked) =
        mark_and_answer-marked store
          (check_agg_share_req p encode_agg_data hpke_encrypt s t g task_id payload now store)
          answer store' h in
      let (read, matching) = check_agg_share_req-IsRead payload now store x e in
      (x.0, x.1, x.2, read, matching, marked)

  mark_and_answer-cases :
      (store : s.Store) (r : Outcome Checked)
      → ((mark_and_answer p encode_agg_data hpke_encrypt s t g task_id store r).1 ≡ store)
        ⊎ ((x : Checked) × (r ≡ ok x)
            × ((mark_and_answer p encode_agg_data hpke_encrypt s t g task_id store r).1
                ≡ (s.mark_collected task_id x.0.batch_sel store).1))
  unfolding mark_and_answer agg_share_resp
  mark_and_answer-cases store (ok x) = inr (x, refl, refl)
  mark_and_answer-cases store (err e) = inl refl
  mark_and_answer-cases store panic = inl refl

  -- Whatever the answer, the storage is marked only behind the checks.
  pub answer_agg_share_req-cases :
      (payload : Bytes) (now : ℕ) (store after : s.Store)
      → (answer_agg_share_req p encode_agg_data hpke_encrypt s t g task_id payload now store).1
        ≡ after
      → (store ≡ after)
        ⊎ ((req : AggregateShareReq) × (agg_param : DapAggregationParam)
            × (agg_share : DapAggregateShare c) × IsRead payload now store req agg_param agg_share
            × IsMatching req agg_share
            × ((s.mark_collected task_id req.batch_sel store).1 ≡ after))
  unfolding answer_agg_share_req
  answer_agg_share_req-cases payload now store after h =
      let checked =
        check_agg_share_req p encode_agg_data hpke_encrypt s t g task_id payload now store in
      elim (mark_and_answer-cases store checked) [
        | inl e ↦ inl (sym e ∙ h)
        | inr (x, e, e') ↦
            let (read, matching) = check_agg_share_req-IsRead payload now store x e in
            inr (x.0, x.1, x.2, read, matching, sym e' ∙ h)
      ]
