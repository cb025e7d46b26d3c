-- ===== src/Protocol/Init/Distinct.antt =====
-- No report ID twice in an aggregation job.
use daphne.Common.{
  ◌≡◌, refl, sym, ap, ◌∙◌, Bool, true, false, some, List, [], ◌∷◌, map, In, inl, inr, Bool-cases,
}
use daphne.Codec.Prio.{Prio}
use daphne.Errors.{Returns, Returns-ok, bind_parts, Outcome, ok}
use daphne.Messages.Ids.{TaskId, ReportId}
use daphne.Messages.Report.{ReportMetadata}
use daphne.Messages.Aggregation.{PrepareInit, AggregationJobInitReq}
use daphne.Task.{DapTaskConfig}
use daphne.Share.{Crypto}
use daphne.Span.{bytes_eq}
use daphne.Span.Buckets.{bytes_eq_sound, bytes_eq_refl}
use daphne.Protocol.Vdaf.{Vdaf}
use daphne.Protocol.Report.{
  EarlyReportStateConsumed, EarlyReportStateInitialized, HpkeDecrypter, consume, consumed_metadata,
  initialized_metadata,
}
use daphne.Protocol.Report.Metadata.{consume-metadata}
use daphne.Protocol.Init.{
  ReplayProtection, DapReportInitializer, DapAggregationParam, is_processed, consume_prep_inits,
  decoded_param, decode_agg_param, consume_agg_job_req,
}

-- Each ID is not among those before it, nor in `processed`.
abbrev pub NoneIn : List ReportId → List ReportId → Type 0
NoneIn processed [] = Unit
NoneIn processed (id ∷ ids) = (¬ In id processed) × NoneIn (id ∷ processed) ids

abbrev pub IsDistinct : List ReportId → Type 0
IsDistinct ids = NoneIn [] ids

is_processed-In : (id : ReportId) (xs : List ReportId) → is_processed id xs ≡ true → In id xs
unfolding is_processed
is_processed-In id [] h = cc
is_processed-In id (x ∷ xs) h = elim (Bool-cases (bytes_eq x id)) [
  | inl same ↦ inl (sym (bytes_eq_sound x id same))
  | inr other ↦ inr (is_processed-In id xs (rw other at h))
]

pub In-is_processed : (id : ReportId) (xs : List ReportId) → In id xs → is_processed id xs ≡ true
unfolding is_processed
In-is_processed id [] h = elim h [ ]
In-is_processed id (x ∷ xs) (inl e) = rw (e, bytes_eq_refl x)
In-is_processed id (x ∷ xs) (inr h) = elim (Bool-cases (bytes_eq x id)) [
  | inl same ↦ rw same
  | inr other ↦ rw other (In-is_processed id xs h)
]

pub not_processed : (id : ReportId) (xs : List ReportId) → is_processed id xs ≡ false → ¬ In id xs
not_processed id xs h h' = let h'' = In-is_processed id xs h' in cc

pub is_processed-new :
    (id : ReportId) (xs : List ReportId) → ¬ In id xs → is_processed id xs ≡ false
is_processed-new id xs h = elim (Bool-cases (is_processed id xs)) [
  | inl there ↦ absurd (h (is_processed-In id xs there))
  | inr new ↦ new
]

abbrev pub init_metadata : PrepareInit → ReportMetadata
init_metadata prep_init = prep_init.report_share.report_metadata

abbrev pub init_id : PrepareInit → ReportId
init_id prep_init = (init_metadata prep_init).id

module _ (p : Prio) {c : Crypto} (v : Vdaf c) (hpke_decrypt : HpkeDecrypter)
    (initializer : DapReportInitializer v) (task_id : TaskId) (t : DapTaskConfig) where
  -- With the check of the IDs, and without.
  abbrev checked : List ReportId → List PrepareInit → Outcome (List EarlyReportStateConsumed)
  checked = consume_prep_inits p v hpke_decrypt initializer task_id t ReplayProtection.enabled

  abbrev unchecked : List ReportId → List PrepareInit → Outcome (List EarlyReportStateConsumed)
  unchecked =
      consume_prep_inits p v hpke_decrypt initializer task_id t ReplayProtection.insecure_disabled

  unchecked_any :
      (xs ys : List ReportId) (inits : List PrepareInit) → unchecked xs inits ≡ unchecked ys inits
  unfolding consume_prep_inits
  unchecked_any xs ys [] = refl
  unchecked_any xs ys (i ∷ inits) = rw (unchecked_any (init_id i ∷ xs) (init_id i ∷ ys) inits)

  checked-new :
      (processed : List ReportId) (inits : List PrepareInit)
      → NoneIn processed (map init_id inits)
      → checked processed inits ≡ unchecked processed inits
  unfolding consume_prep_inits
  checked-new processed [] h = refl
  checked-new processed (i ∷ inits) (new, h) =
      rw (is_processed-new (init_id i) processed new, checked-new (init_id i ∷ processed) inits h)

  checked-metadata :
      (processed : List ReportId) (inits : List PrepareInit) (out : List EarlyReportStateConsumed)
      → checked processed inits ≡ ok out
      → NoneIn processed (map init_id inits) × (map consumed_metadata out ≡ map init_metadata inits)
  unfolding consume_prep_inits
  checked-metadata processed [] out h =
      let same : [] ≡ out = cc in (tt, ap (map consumed_metadata) (sym same))
  checked-metadata processed (i ∷ inits) out h =
      elim (Bool-cases (is_processed (init_id i) processed)) [
        | inl there ↦ let h' = rw there at h in cc
        | inr new ↦
            let (s, first, h') =
              bind_parts
                (consume p hpke_decrypt initializer.valid_report_time_range false task_id t
                  i.report_share (some i.payload))
                _ _ (rw new at h) in
            let (rest, tail, h'') = bind_parts (checked (init_id i ∷ processed) inits) _ _ h' in
            let (news, same) = checked-metadata (init_id i ∷ processed) inits rest tail in
            let out_is : s ∷ rest ≡ out = cc in
            (
              (not_processed (init_id i) processed new, news),
              sym (ap (map consumed_metadata) out_is)
                  ∙ rw (
                    consume-metadata p t i.report_share (some i.payload) hpke_decrypt
                        initializer.valid_report_time_range false task_id s first,
                    same,
                  ),
            )
      ]

  -- What the deployment does between the calls: it keeps the reports, in their order.
  abbrev pub KeepsReports : Type 0
  KeepsReports =
      (is_leader : Bool) (agg_param : DapAggregationParam)
      (consumed : List EarlyReportStateConsumed)
      → Returns (λ out. map initialized_metadata out ≡ map consumed_metadata consumed)
          (initializer.initialize_reports is_leader t agg_param consumed)

  -- If the deployment initializes the reports it is given, in their order, then a request that the
  -- Helper accepts under replay protection has no report ID twice, and the reports that the Helper
  -- initializes have the metadata of the request, in the same order.
  pub consume_agg_job_req-IsDistinct :
      (req : AggregationJobInitReq) (out : List (EarlyReportStateInitialized v))
      → KeepsReports
      → consume_agg_job_req p v hpke_decrypt initializer task_id t ReplayProtection.enabled req
        ≡ ok out
      → IsDistinct (map init_id req.prep_inits)
        × (map initialized_metadata out ≡ map init_metadata req.prep_inits)
  unfolding consume_agg_job_req
  consume_agg_job_req-IsDistinct req out keeps h =
      let (consumed, first, h') = bind_parts (checked [] req.prep_inits) _ _ h in
      let (distinct, same) = checked-metadata [] req.prep_inits consumed first in
      let (agg_param, second, h'') =
        bind_parts
          (decoded_param
            (p.get_decoded DapAggregationParam (decode_agg_param t.vdaf) req.agg_param))
          _ _ h' in
      (
        distinct,
        Returns-ok (λ out. map initialized_metadata out ≡ map consumed_metadata consumed)
              (keeps false agg_param consumed) h''
            ∙ same,
      )

  -- On a request without a repeated report ID, the Helper does the same with replay protection and
  -- without.
  pub consume_agg_job_req-new :
      (req : AggregationJobInitReq)
      → IsDistinct (map init_id req.prep_inits)
      → consume_agg_job_req p v hpke_decrypt initializer task_id t ReplayProtection.enabled req
        ≡ consume_agg_job_req p v hpke_decrypt initializer task_id t
            ReplayProtection.insecure_disabled req
  unfolding consume_agg_job_req
  consume_agg_job_req-new req h = rw (checked-new [] req.prep_inits h) refl
