-- ===== src/Messages/Aggregation/RoundTrip.antt =====
-- The wire format of the aggregation messages, and that decoding is the inverse of encoding.
use daphne.Common.{
  ◌^◌, ◌<◌, ◌≡◌, refl, List, [], ◌∷◌, flatten, length, length-append, map, All, arith,
}
use daphne.Codec.Base.{Bytes, pure}
use daphne.Codec.Prio.{Prio, PrioLaws, to_be_bytes}
use daphne.Codec.RoundTrip.{
  RoundTrips, RoundTrips-bind, RoundTrips-done, RoundTrips-uint, RoundTrips-items, RoundTrips-last,
  vector, IsItem,
}
use daphne.Codec.Lengths.RoundTrip.{RoundTrips-u32_bytes}
use daphne.Messages.Ids.{IsArray, RoundTrips-id}
use daphne.Messages.Report.RoundTrip.{IsReportShare, report_share_wire, RoundTrips-report_share}
use daphne.Messages.Batch.RoundTrip.{IsPartBatchSel, part_batch_sel_wire, RoundTrips-part_batch_sel}
use daphne.Messages.Aggregation.{
  PrepareInit, AggregationJobInitReq, TransitionFailure, batch_collected, TransitionVar, continued,
  failed, Transition, AggregationJobResp, failure_code, failure_try_from, encode_prepare_init,
  decode_prepare_init, encode_agg_job_init_req, decode_agg_job_init_req, encode_failure,
  decode_failure, encode_transition_var, decode_transition_var, encode_transition,
  decode_transition, encode_agg_job_resp, decode_agg_job_resp,
}

pub record IsPrepareInit (i : PrepareInit) : Type 0 where
  pub report_share : IsReportShare i.report_share
  pub payload : length i.payload < 256 ^ 4

abbrev pub IsTransitionVar : TransitionVar → Type 0
IsTransitionVar (continued m) = length m < 256 ^ 4
IsTransitionVar (failed f) = Unit

pub record IsTransition (t : Transition) : Type 0 where
  pub report_id : IsArray 16 t.report_id
  pub var : IsTransitionVar t.var

abbrev pub prepare_init_wire : PrepareInit → Bytes
prepare_init_wire i = flatten (report_share_wire i.report_share ∷ vector 4 i.payload ∷ [])

abbrev pub agg_job_init_req_wire : AggregationJobInitReq → Bytes
agg_job_init_req_wire r = flatten (
    vector 4 r.agg_param
    ∷ part_batch_sel_wire r.part_batch_sel
    ∷ vector 4 (flatten (map prepare_init_wire r.prep_inits))
    ∷ [])

abbrev pub transition_var_wire : TransitionVar → Bytes
transition_var_wire (continued m) = flatten (to_be_bytes 1 0 ∷ vector 4 m ∷ [])
transition_var_wire (failed f) = flatten (to_be_bytes 1 2 ∷ to_be_bytes 1 (failure_code f) ∷ [])

abbrev pub transition_wire : Transition → Bytes
transition_wire t = flatten (t.report_id ∷ transition_var_wire t.var ∷ [])

abbrev pub agg_job_resp_wire : AggregationJobResp → Bytes
agg_job_resp_wire r = vector 4 (flatten (map transition_wire r.transitions))

pub record IsAggJobInitReq (r : AggregationJobInitReq) : Type 0 where
  pub agg_param : length r.agg_param < 256 ^ 4
  pub part_batch_sel : IsPartBatchSel r.part_batch_sel
  pub prep_inits : All IsPrepareInit r.prep_inits
  pub prep_inits_fit : length (flatten (map prepare_init_wire r.prep_inits)) < 256 ^ 4

pub record IsAggJobResp (r : AggregationJobResp) : Type 0 where
  pub transitions : All IsTransition r.transitions
  pub transitions_fit : length (flatten (map transition_wire r.transitions)) < 256 ^ 4

-- Each code is a byte, and is read back as the failure that it stands for.
failure_try_from-code : (f : TransitionFailure) → failure_try_from (failure_code f) ≡ pure f
unfolding failure_try_from
failure_try_from-code batch_collected = refl
failure_try_from-code _ = refl

failure_code-lt : (f : TransitionFailure) → failure_code f < 256 ^ 1
unfolding failure_code
failure_code-lt batch_collected = omega arith
failure_code-lt _ = omega arith

module _ {p : Prio} (laws : PrioLaws p) where
  RoundTrips-prepare_init :
      (i : PrepareInit)
      → IsPrepareInit i
      → RoundTrips (encode_prepare_init p i) (decode_prepare_init p) i (prepare_init_wire i)
  unfolding encode_prepare_init decode_prepare_init
  RoundTrips-prepare_init i h =
      RoundTrips-bind _ (RoundTrips-report_share laws i.report_share h.report_share)
        (RoundTrips-bind _ (RoundTrips-u32_bytes laws i.payload h.payload) RoundTrips-done)

  prepare_init_items :
      (xs : List PrepareInit)
      → All IsPrepareInit xs
      → All (IsItem (encode_prepare_init p) (decode_prepare_init p) prepare_init_wire) xs
  prepare_init_items [] h = tt
  prepare_init_items (x ∷ xs) h = (
    (
      RoundTrips-prepare_init x h.0,
      omega (
        arith,
        length-append (report_share_wire x.report_share) (flatten (vector 4 x.payload ∷ [])),
      ),
    ),
    prepare_init_items xs h.1,
  )

  -- For every codec with the laws of `PrioLaws` and every request whose prepare inits are valid
  -- and whose parts fit their length prefixes (`IsAggJobInitReq`): the encoder appends exactly the
  -- bytes of its wire format to what was written before, and the decoder, wherever those bytes
  -- stand in a buffer of less than 2^63 bytes and whatever follows them, returns the value and
  -- stops behind them.
  pub RoundTrips-agg_job_init_req :
      (r : AggregationJobInitReq)
      → IsAggJobInitReq r
      → RoundTrips
          (encode_agg_job_init_req p r)
          (decode_agg_job_init_req p)
          r
          (agg_job_init_req_wire r)
  unfolding encode_agg_job_init_req decode_agg_job_init_req
  RoundTrips-agg_job_init_req r h =
      RoundTrips-bind _ (RoundTrips-u32_bytes laws r.agg_param h.agg_param) (
        RoundTrips-bind _ (RoundTrips-part_batch_sel laws r.part_batch_sel h.part_batch_sel) (
          RoundTrips-bind _
            (RoundTrips-items laws 4 (encode_prepare_init p) (decode_prepare_init p)
              prepare_init_wire r.prep_inits (prepare_init_items r.prep_inits h.prep_inits)
              h.prep_inits_fit)
            RoundTrips-done))

  RoundTrips-failure :
      (f : TransitionFailure)
      → RoundTrips (encode_failure p f) (decode_failure p) f (to_be_bytes 1 (failure_code f))
  unfolding encode_failure decode_failure
  RoundTrips-failure f =
      RoundTrips-last _ f (RoundTrips-uint laws 1 (failure_code f) (failure_code-lt f))
        (failure_try_from-code f)

  RoundTrips-transition_var :
      (v : TransitionVar)
      → IsTransitionVar v
      → RoundTrips (encode_transition_var p v) (decode_transition_var p) v (transition_var_wire v)
  unfolding encode_transition_var decode_transition_var
  RoundTrips-transition_var (continued m) h =
      RoundTrips-bind _ (RoundTrips-uint laws 1 0 (omega arith))
        (RoundTrips-bind _ (RoundTrips-u32_bytes laws m h) RoundTrips-done)
  RoundTrips-transition_var (failed f) h =
      RoundTrips-bind _ (RoundTrips-uint laws 1 2 (omega arith))
        (RoundTrips-bind _ (RoundTrips-failure f) RoundTrips-done)

  RoundTrips-transition :
      (t : Transition)
      → IsTransition t
      → RoundTrips (encode_transition p t) (decode_transition p) t (transition_wire t)
  unfolding encode_transition decode_transition
  RoundTrips-transition t h =
      RoundTrips-bind _ (RoundTrips-id 16 t.report_id h.report_id)
        (RoundTrips-bind _ (RoundTrips-transition_var t.var h.var) RoundTrips-done)

  transition_items :
      (xs : List Transition)
      → All IsTransition xs
      → All (IsItem (encode_transition p) (decode_transition p) transition_wire) xs
  transition_items [] h = tt
  transition_items (x ∷ xs) h = (
    (
      RoundTrips-transition x h.0,
      omega (
        arith,
        length-append x.report_id (flatten (transition_var_wire x.var ∷ [])),
        h.0.report_id,
      ),
    ),
    transition_items xs h.1,
  )

  -- For every codec with the laws of `PrioLaws` and every response whose transitions are valid and
  -- fit the length prefix (`IsAggJobResp`): the encoder appends exactly the bytes of its wire
  -- format to what was written before, and the decoder, wherever those bytes stand in a buffer of
  -- less than 2^63 bytes and whatever follows them, returns the value and stops behind them.
  pub RoundTrips-agg_job_resp :
      (r : AggregationJobResp)
      → IsAggJobResp r
      → RoundTrips
          (encode_agg_job_resp p r)
          (decode_agg_job_resp p)
          r
          (vector 4 (flatten (map transition_wire r.transitions)))
  unfolding encode_agg_job_resp decode_agg_job_resp
  RoundTrips-agg_job_resp r h =
      RoundTrips-last _ r
        (RoundTrips-items laws 4 (encode_transition p) (decode_transition p) transition_wire
          r.transitions (transition_items r.transitions h.transitions) h.transitions_fit)
        refl
