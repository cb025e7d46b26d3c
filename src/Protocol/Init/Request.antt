-- ===== src/Protocol/Init/Request.antt =====
-- The Leader's request and the state that it keeps for the response.
use mathlib.Core.Path.{subst}
use daphne.Common.{
  map-map, ◌==◌, length, ℕ, ◌≡◌, refl, sym, ap, ◌∙◌, true, none, List, [], ◌∷◌, map, In, inl, inr,
  Bool-cases,
}
use daphne.Codec.Prio.{Prio}
use daphne.Errors.{Returns, Returns-bind, Returns-any, Returns-ok, Returns-weaken, ok}
use daphne.Messages.Ids.{TaskId, ReportId}
use daphne.Messages.Batch.{PartialBatchSelector}
use daphne.Messages.Report.{Report, ReportMetadata, HpkeCiphertext}
use daphne.Messages.Aggregation.{PrepareInit, AggregationJobInitReq}
use daphne.Task.{DapTaskConfig}
use daphne.Share.{Crypto}
use daphne.Protocol.Vdaf.{Vdaf}
use daphne.Protocol.Report.{
  encoding, EarlyReportStateConsumed, EarlyReportStateInitialized, HpkeDecrypter, consumed_metadata,
  initialized_metadata,
}
use daphne.Protocol.Report.Metadata.{Keeps-consume}
use daphne.Protocol.Job.{AggregationJobReportState, DapAggregationJobState}
use daphne.Protocol.Init.{
  encode_agg_param, ReplayProtection, DapReportInitializer, DapAggregationParam, is_processed,
  leader_report_share, consume_reports, init_payload, prepare_from, finish_req, produce_agg_job_req,
}
use daphne.Protocol.Init.Distinct.{
  NoneIn, IsDistinct, not_processed, init_metadata, init_id, KeepsReports,
}

-- A sublist of IDs has none of a smaller set.
NoneIn-less :
    (xs ys ids : List ReportId)
    → ((id : ReportId) → In id xs → In id ys)
    → NoneIn ys ids
    → NoneIn xs ids
NoneIn-less xs ys [] less h = tt
NoneIn-less xs ys (id ∷ ids) less (new, h) = (
  λ h'. new (less id h'),
  NoneIn-less (id ∷ xs) (id ∷ ys) ids
      (λ i h'. elim h' [ inl e ↦ inl e | inr h'' ↦ inr (less i h'') ]) h,
)

abbrev pub init_key : PrepareInit → ReportId × ℕ
init_key prep_init = (init_id prep_init, (init_metadata prep_init).time)

abbrev pub state_key : {c : Crypto} {v : Vdaf c} → AggregationJobReportState v → ReportId × ℕ
state_key s = (s.report_id, s.time)

module _ (p : Prio) {c : Crypto} (v : Vdaf c) (hpke_decrypt : HpkeDecrypter)
    (initializer : DapReportInitializer v) (task_id : TaskId) (t : DapTaskConfig) where
  abbrev report_id : Report → ReportId
  report_id r = r.report_metadata.id

  abbrev consumed_id : EarlyReportStateConsumed → ReportId
  consumed_id r = (consumed_metadata r).id

  abbrev initialized_id : EarlyReportStateInitialized v → ReportId
  initialized_id r = (initialized_metadata r).id

  consume_reports-NoneIn :
      (processed : List ReportId) (reports : List Report)
      → Returns
          (λ out. NoneIn processed (map consumed_id out.0))
          (consume_reports p v hpke_decrypt initializer task_id t ReplayProtection.enabled processed
            reports)
  unfolding consume_reports
  consume_reports-NoneIn processed [] = tt
  consume_reports-NoneIn processed (r ∷ reports) =
      elim (Bool-cases (is_processed (report_id r) processed)) [
        | inl there ↦ rw there tt
        | inr new ↦ rw new (
            Returns-bind (λ s. consumed_metadata s ≡ r.report_metadata) _ _ _
              (Keeps-consume p t
                (leader_report_share p v hpke_decrypt initializer task_id t ReplayProtection.enabled
                  r)
                none hpke_decrypt initializer.valid_report_time_range true task_id)
              (λ s same.
                Returns-bind
                  (λ (out : List EarlyReportStateConsumed × List HpkeCiphertext).
                    NoneIn (report_id r ∷ processed) (map consumed_id out.0))
                  _ _ _ (consume_reports-NoneIn (report_id r ∷ processed) reports)
                  (λ out h.
                    subst
                      (λ (m : ReportMetadata).
                        (¬ In m.id processed) × NoneIn (m.id ∷ processed) (map consumed_id out.0))
                      (sym same) (not_processed (report_id r) processed new, h))))
      ]

  abbrev Prepared :
      List (EarlyReportStateInitialized v)
      → List (AggregationJobReportState v) × List PrepareInit
      → Type 0
  Prepared rs out =
      (map state_key out.0 ≡ map init_key out.1)
      × ((xs : List ReportId) → NoneIn xs (map initialized_id rs) → NoneIn xs (map init_id out.1))

  prepare_from-Prepared :
      (rs : List (EarlyReportStateInitialized v)) (hs : List HpkeCiphertext)
      → Returns
          (Prepared rs)
          (prepare_from p v hpke_decrypt initializer task_id t ReplayProtection.enabled rs hs)
  unfolding prepare_from
  prepare_from-Prepared (EarlyReportStateInitialized.ready metadata ps peer share state ∷ rs)
        (x ∷ hs) =
      Returns-bind (λ _. Unit)
        (Prepared (EarlyReportStateInitialized.ready metadata ps peer share state ∷ rs)) _ _
        (Returns-any
          (init_payload p v hpke_decrypt initializer task_id t ReplayProtection.enabled share))
        (λ payload _.
          Returns-bind (Prepared rs)
            (Prepared (EarlyReportStateInitialized.ready metadata ps peer share state ∷ rs))
            (prepare_from p v hpke_decrypt initializer task_id t ReplayProtection.enabled rs hs) _
            (prepare_from-Prepared rs hs)
            (λ rest h. (
              ap ((metadata.id, metadata.time) ∷◌) h.0,
              λ xs new. (new.0, h.1 (metadata.id ∷ xs) new.1),
            )))
  prepare_from-Prepared (EarlyReportStateInitialized.rejected metadata failure ∷ rs) (x ∷ hs) =
      Returns-weaken (Prepared rs)
        (Prepared (EarlyReportStateInitialized.rejected metadata failure ∷ rs))
        (prepare_from p v hpke_decrypt initializer task_id t ReplayProtection.enabled rs hs)
        (prepare_from-Prepared rs hs)
        (λ rest h. (
          h.0,
          λ xs new.
              h.1 xs
                (NoneIn-less xs (metadata.id ∷ xs) (map initialized_id rs) (λ i h'. inr h') new.1),
        ))
  prepare_from-Prepared [] hs = (refl, λ xs h. h)
  prepare_from-Prepared (r ∷ rs) [] = (refl, λ xs h. tt)

  metadata_id : ReportMetadata → ReportId
  metadata_id m = m.id

  same_ids :
      (rs : List (EarlyReportStateInitialized v)) (cs : List EarlyReportStateConsumed)
      → map initialized_metadata rs ≡ map consumed_metadata cs
      → map consumed_id cs ≡ map initialized_id rs
  unfolding metadata_id
  same_ids rs cs h =
      sym (map-map metadata_id consumed_metadata cs)
      ∙ ap (map metadata_id) (sym h)
      ∙ map-map metadata_id initialized_metadata rs

  -- No ID twice in the request, and the state has the IDs and times of the request.
  abbrev Produced : DapAggregationJobState v × AggregationJobInitReq → Type 0
  Produced out =
      IsDistinct (map init_id out.1.prep_inits)
      × (map state_key out.0.seq ≡ map init_key out.1.prep_inits)

  finish_req-Produced :
      (sel : PartialBatchSelector) (agg_param : DapAggregationParam) (hs : List HpkeCiphertext)
      (rs : List (EarlyReportStateInitialized v))
      → IsDistinct (map initialized_id rs)
      → Returns Produced (
          finish_req p v hpke_decrypt initializer task_id t ReplayProtection.enabled sel agg_param
            hs rs)
  unfolding finish_req
  finish_req-Produced sel agg_param hs rs new = elim (Bool-cases (length rs == length hs)) [
    | inl same ↦ rw same (
        Returns-bind (Prepared rs) Produced
          (prepare_from p v hpke_decrypt initializer task_id t ReplayProtection.enabled rs hs) _
          (prepare_from-Prepared rs hs)
          (λ r h.
            Returns-bind (λ _. Unit) Produced
              (encoding (p.get_encoded (encode_agg_param agg_param))) _ (Returns-any _)
              (λ e _. (h.1 [] new, h.0))))
    | inr other ↦ rw other tt
  ]

  -- For whatever replay-protected request the Leader produces, if the deployment initializes the
  -- reports that it is given, in their order: no report ID occurs twice in it, and the state that the
  -- Leader keeps has the IDs and times of its reports, in the same order.
  pub produce_agg_job_req-IsDistinct :
      (sel : PartialBatchSelector) (agg_param : DapAggregationParam) (reports : List Report)
      (state : DapAggregationJobState v) (req : AggregationJobInitReq)
      → KeepsReports p v hpke_decrypt initializer task_id t
      → produce_agg_job_req p v hpke_decrypt initializer task_id t ReplayProtection.enabled sel
          agg_param reports
        ≡ ok (state, req)
      → IsDistinct (map init_id req.prep_inits)
        × (map state_key state.seq ≡ map init_key req.prep_inits)
  unfolding produce_agg_job_req
  produce_agg_job_req-IsDistinct sel agg_param reports state req keeps h =
      Returns-ok Produced
        (Returns-bind
          (λ (out : List EarlyReportStateConsumed × List HpkeCiphertext).
            NoneIn [] (map consumed_id out.0))
          Produced
          (consume_reports p v hpke_decrypt initializer task_id t ReplayProtection.enabled []
            reports)
          _ (consume_reports-NoneIn [] reports)
          (λ out new.
            Returns-bind (λ rs. map initialized_metadata rs ≡ map consumed_metadata out.0) Produced
              (initializer.initialize_reports true t agg_param out.0) _ (keeps true agg_param out.0)
              (λ rs same.
                finish_req-Produced sel agg_param out.1 rs
                  (subst IsDistinct (same_ids rs out.0 same) new))))
        h
