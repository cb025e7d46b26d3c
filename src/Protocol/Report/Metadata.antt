-- ===== src/Protocol/Report/Metadata.antt =====
-- A consumed report keeps its metadata.
use mathlib.Core.Path.{subst}
use daphne.Common.{
  [], if◌then◌else◌, ◌≡◌, refl, Bool, true, false, Option, Bool-cases, inl, inr, leb, ltb,
}
use daphne.Codec.Base as Codec
use daphne.Codec.Base.{Bytes}
use daphne.Codec.Prio.{Prio}
use daphne.Errors.{Returns, Outcome, ok, err, panic, fatal, abort, transition, ◌>>=◌}
use daphne.Messages.Ids.{TaskId}
use daphne.Messages.Report.{ReportMetadata, ReportShare, PlaintextInputShare}
use daphne.Task.{DapTaskConfig}
use daphne.Share.{Crypto}
use daphne.Protocol.Vdaf.{Vdaf, VdafResult}
use daphne.Protocol.Report.{
  initialized_metadata, initialized, initialize_report, encoding, EarlyReportStateConsumed,
  TimeRange, HpkeDecrypter, check_extensions, peer_prep_share_of, consume_frame,
  consume_input_share, consume_decrypted, consume, consumed_metadata, input_share_aad,
}

-- Whatever the call returns has this metadata.
abbrev pub Keeps : ReportMetadata → Outcome EarlyReportStateConsumed → Type 0
Keeps m = Returns (λ s. consumed_metadata s ≡ m)

module _ (p : Prio) (t : DapTaskConfig) (r : ReportShare) (prep_init_payload : Option Bytes) where
  Keeps-frame :
      (payload : Bytes) (frame : Codec.Result (Option Bytes))
      → Keeps r.report_metadata (consume_frame p r payload frame)
  unfolding consume_frame
  Keeps-frame payload (Codec.ok a) = refl
  Keeps-frame payload (Codec.err e) = refl
  Keeps-frame payload Codec.panic = tt

  Keeps-input_share :
      (decoded : Codec.Result PlaintextInputShare)
      → Keeps r.report_metadata (consume_input_share p t r prep_init_payload decoded)
  unfolding consume_input_share
  Keeps-input_share (Codec.ok s) =
      elim (Bool-cases (check_extensions t.method_is_taskprov s.extensions)) [
        | inl h ↦ rw h (Keeps-frame s.payload (peer_prep_share_of p prep_init_payload))
        | inr h ↦ rw h refl
      ]
  Keeps-input_share (Codec.err e) = refl
  Keeps-input_share Codec.panic = tt

  Keeps-decrypted :
      (decrypted : Outcome Bytes)
      → Keeps r.report_metadata (consume_decrypted p t r prep_init_payload decrypted)
  unfolding consume_decrypted
  Keeps-decrypted (ok plaintext) = Keeps-input_share _
  Keeps-decrypted (err fatal) = tt
  Keeps-decrypted (err (abort a)) = tt
  Keeps-decrypted (err (transition failure)) = refl
  Keeps-decrypted panic = tt

  Keeps-aad :
      (aad : Codec.Result Bytes) (f : Bytes → Outcome Bytes)
      → Keeps r.report_metadata
          (encoding aad >>= λ a. consume_decrypted p t r prep_init_payload (f a))
  Keeps-aad (Codec.ok aad) f = Keeps-decrypted (f aad)
  Keeps-aad (Codec.err e) f = tt
  Keeps-aad Codec.panic f = tt

  Keeps-range :
      (x y z : Bool) (a b d o : Outcome EarlyReportStateConsumed)
      → Keeps r.report_metadata a
      → Keeps r.report_metadata b
      → Keeps r.report_metadata d
      → Keeps r.report_metadata o
      → Keeps r.report_metadata (if x then a else if y then b else if z then d else o)
  Keeps-range true y z a b d o ha hb hd ho = ha
  Keeps-range false true z a b d o ha hb hd ho = hb
  Keeps-range false false true a b d o ha hb hd ho = hd
  Keeps-range false false false a b d o ha hb hd ho = ho

  pub Keeps-consume :
      (hpke_decrypt : HpkeDecrypter) (range : TimeRange) (is_leader : Bool) (task_id : TaskId)
      → Keeps r.report_metadata
          (consume p hpke_decrypt range is_leader task_id t r prep_init_payload)
  unfolding consume
  Keeps-consume hpke_decrypt range is_leader task_id =
      Keeps-range (leb t.not_after r.report_metadata.time) (ltb r.report_metadata.time range.start)
        (ltb range.end r.report_metadata.time) _ _ _ _ refl refl refl
        (Keeps-aad (input_share_aad p task_id r []) _)

  pub consume-metadata :
      (hpke_decrypt : HpkeDecrypter) (range : TimeRange) (is_leader : Bool) (task_id : TaskId)
      (s : EarlyReportStateConsumed)
      → consume p hpke_decrypt range is_leader task_id t r prep_init_payload ≡ ok s
      → consumed_metadata s ≡ r.report_metadata
  consume-metadata hpke_decrypt range is_leader task_id s h =
      subst (Keeps r.report_metadata) h (Keeps-consume hpke_decrypt range is_leader task_id)

module _ {c : Crypto} (v : Vdaf c) where
  initialized-metadata :
      (m : ReportMetadata) (public_share : Bytes) (peer : Option Bytes)
      (r : VdafResult (v.VdafPrepState × v.VdafPrepShare))
      → initialized_metadata (initialized v m public_share peer r) ≡ m
  unfolding initialized
  initialized-metadata m public_share peer (VdafResult.ok r) = refl
  initialized-metadata m public_share peer (VdafResult.err e) = refl

  pub initialize_report-metadata :
      (is_leader : Bool) (s : EarlyReportStateConsumed)
      → initialized_metadata (initialize_report v is_leader s) ≡ consumed_metadata s
  unfolding initialize_report
  initialize_report-metadata is_leader
        (EarlyReportStateConsumed.ready m public_share input_share peer) =
      initialized-metadata m public_share peer (v.prep_init is_leader m.id public_share input_share)
  initialize_report-metadata is_leader (EarlyReportStateConsumed.rejected m failure) = refl
