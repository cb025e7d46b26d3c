-- ===== src/Protocol/Report/Ready.antt =====
-- Which reports an Aggregator consumes as ready, and what every consumed report keeps.
use daphne.Common.{
  ◌++◌, length, ◌<◌, ◌≤◌, ◌^◌, ltb, leb, arith, [], inr, inl, ℕ, ◌≡◌, ◌↔◌, refl, Bool, true, false,
  Option, if◌then◌else◌, Bool-cases,
}
use daphne.Codec.Base as Codec
use daphne.Codec.Base.{Bytes}
use daphne.Codec.Prio.{Prio, PrioLaws}
use daphne.Codec.RoundTrip.{vector, Appends-seq}
use daphne.Codec.Lengths.RoundTrip.{RoundTrips-u32_bytes}
use daphne.Messages.Ids.{TaskId, IsArray, RoundTrips-id}
use daphne.Messages.Report.RoundTrip.{metadata_wire, IsMetadata, RoundTrips-metadata}
use daphne.Messages.Aggregation.{TransitionFailure, task_expired, report_dropped, report_too_early}
use daphne.Errors.{Outcome, ok, err, panic, fatal, abort, transition}
use daphne.Messages.Ids.{TaskId}
use daphne.Messages.Report.{ReportMetadata, ReportShare, PlaintextInputShare, decode_input_share}
use daphne.Task.{DapTaskConfig}
use daphne.Protocol.Report.{
  rejected, EarlyReportStateConsumed, ready, rejected, TimeRange, HpkeDecrypter, check_extensions,
  input_share_info, input_share_aad, peer_prep_share_of, consume_frame, consume_input_share,
  consume_decrypted, consume,
}
use daphne.Protocol.Report.Extensions.{expected_extensions, check_extensions_iff}

-- Three checks that reject, in front of the rest.
guarded :
    (x y z : Bool) (m : ReportMetadata) (e f g : TransitionFailure)
    (o : Outcome EarlyReportStateConsumed) (metadata : ReportMetadata)
    (public_share input_share : Bytes) (peer : Option Bytes)
    → ((if x
          then ok (rejected m e)
          else if y
          then ok (rejected m f)
          else if z
          then ok (rejected m g)
          else o)
        ≡ ok (ready metadata public_share input_share peer))
      ↔ ((x ≡ false)
          × (y ≡ false)
          × (z ≡ false)
          × (o ≡ ok (ready metadata public_share input_share peer)))
guarded true y z m e f g o metadata public_share input_share peer =
    (λ h. cc, λ h. let (a, b, d, h') = h in cc)
guarded false true z m e f g o metadata public_share input_share peer =
    (λ h. cc, λ h. let (a, b, d, h') = h in cc)
guarded false false true m e f g o metadata public_share input_share peer =
    (λ h. cc, λ h. let (a, b, d, h') = h in cc)
guarded false false false m e f g o metadata public_share input_share peer =
    (λ h. (refl, refl, refl, h), λ h. let (a, b, d, h') = h in h')

in_range :
    (time after start end : ℕ)
    → ((leb after time ≡ false) × (ltb time start ≡ false) × (ltb end time ≡ false))
      ↔ ((time < after) × (start ≤ time) × (time ≤ end))
in_range time after start end = ground arith

module _ (p : Prio) (t : DapTaskConfig) (r : ReportShare) (prep_init_payload : Option Bytes)
    (metadata : ReportMetadata) (public_share input_share : Bytes) (peer : Option Bytes) where
  abbrev state : EarlyReportStateConsumed
  state = ready metadata public_share input_share peer

  -- The state has the report's metadata, its public share and the payload of its input share.
  abbrev IsOf : Bytes → Type 0
  IsOf payload =
      (metadata ≡ r.report_metadata) × (public_share ≡ r.public_share) × (input_share ≡ payload)

  consume_frame_iff :
      (payload : Bytes) (frame : Codec.Result (Option Bytes))
      → (consume_frame p r payload frame ≡ ok state) ↔ (IsOf payload × (frame ≡ Codec.ok peer))
  unfolding consume_frame
  consume_frame_iff payload (Codec.ok a) = (λ h. ((cc, cc, cc), cc), λ h. let (x, y) = h in cc)
  consume_frame_iff payload (Codec.err e) = (λ h. cc, λ h. cc)
  consume_frame_iff payload Codec.panic = (λ h. cc, λ h. cc)

  -- The decoded input share is acceptable.
  abbrev pub IsAccepted : Codec.Result PlaintextInputShare → Type 0
  IsAccepted (Codec.ok s) =
      (s.extensions ≡ expected_extensions t.method_is_taskprov)
      × IsOf s.payload
      × (peer_prep_share_of p prep_init_payload ≡ Codec.ok peer)
  IsAccepted (Codec.err e) = ⊥
  IsAccepted Codec.panic = ⊥

  consume_input_share_iff :
      (decoded : Codec.Result PlaintextInputShare)
      → (consume_input_share p t r prep_init_payload decoded ≡ ok state) ↔ IsAccepted decoded
  unfolding consume_input_share
  consume_input_share_iff (Codec.ok s) =
      let (to, from) = check_extensions_iff t.method_is_taskprov s.extensions in
      let (to', from') = consume_frame_iff s.payload (peer_prep_share_of p prep_init_payload) in
      elim (Bool-cases (check_extensions t.method_is_taskprov s.extensions)) [
        | inl accepted ↦
            rw accepted (
              λ h. let (a, b) = to' h in (to accepted, a, b),
              λ h. let (a, b, d) = h in from' (b, d),
            )
        | inr refused ↦ (λ h. let h' = rw refused at h in cc, λ h. let accepted = from h.0 in cc)
      ]
  consume_input_share_iff (Codec.err e) = (λ h. cc, λ h. elim h [ ])
  consume_input_share_iff Codec.panic = (λ h. cc, λ h. elim h [ ])

  abbrev pub IsDecrypted : Outcome Bytes → Type 0
  IsDecrypted (ok plaintext) =
      IsAccepted (p.get_decoded PlaintextInputShare (decode_input_share p) plaintext)
  IsDecrypted (err e) = ⊥
  IsDecrypted panic = ⊥

  consume_decrypted_iff :
      (decrypted : Outcome Bytes)
      → (consume_decrypted p t r prep_init_payload decrypted ≡ ok state) ↔ IsDecrypted decrypted
  unfolding consume_decrypted
  consume_decrypted_iff (ok plaintext) = consume_input_share_iff _
  consume_decrypted_iff (err fatal) = (λ h. cc, λ h. elim h [ ])
  consume_decrypted_iff (err (abort a)) = (λ h. cc, λ h. elim h [ ])
  consume_decrypted_iff (err (transition failure)) = (λ h. cc, λ h. elim h [ ])
  consume_decrypted_iff panic = (λ h. cc, λ h. elim h [ ])

module _ {p : Prio} (laws : PrioLaws p) where
  -- The associated data of a report's input share.
  abbrev pub aad_wire : TaskId → ReportShare → Bytes
  aad_wire task_id r = task_id ++ (metadata_wire r.report_metadata ++ vector 4 r.public_share)

  aad_written :
      (task_id : TaskId) (r : ReportShare)
      → IsArray 32 task_id
      → IsMetadata r.report_metadata
      → length r.public_share < 256 ^ 4
      → input_share_aad p task_id r [] ≡ Codec.ok (aad_wire task_id r)
  unfolding input_share_aad
  aad_written task_id r id meta short =
      (Appends-seq (RoundTrips-id 32 task_id id).appends (
          Appends-seq (RoundTrips-metadata laws r.report_metadata meta).appends
            (RoundTrips-u32_bytes laws r.public_share short).appends)).at
        []

  -- An Aggregator consumes a report as ready in exactly these cases, for every codec with the laws
  -- of `PrioLaws` and a report with a public share of less than 2^32 bytes, whose IDs and time have
  -- the sizes of their types: its time is before the end of the task and in the valid range, its
  -- input share decrypts under the info string of the role and the associated data that name the
  -- task, the metadata and the public share, the plaintext decodes to an input share with exactly the
  -- extensions of the task, and the payload of the Helper's request, if there is one, is a framed
  -- message. The state then has the report's metadata and public share, the payload of the input share
  -- and the framed message.
  pub consume_iff :
      (hpke_decrypt : HpkeDecrypter) (range : TimeRange) (is_leader : Bool) (task_id : TaskId)
      (t : DapTaskConfig) (r : ReportShare) (prep_init_payload : Option Bytes)
      (metadata : ReportMetadata) (public_share input_share : Bytes) (peer : Option Bytes)
      → IsArray 32 task_id
      → IsMetadata r.report_metadata
      → length r.public_share < 256 ^ 4
      → (consume p hpke_decrypt range is_leader task_id t r prep_init_payload
          ≡ ok (ready metadata public_share input_share peer))
        ↔ ((r.report_metadata.time < t.not_after)
            × (range.start ≤ r.report_metadata.time)
            × (r.report_metadata.time ≤ range.end)
            × IsDecrypted p t r prep_init_payload metadata public_share input_share peer (
                hpke_decrypt task_id
                  (input_share_info p is_leader)
                  (aad_wire task_id r)
                  r.encrypted_input_share))
  unfolding consume
  consume_iff hpke_decrypt range is_leader task_id t r prep_init_payload metadata public_share
        input_share peer id meta short =
      let time = r.report_metadata.time in
      let answer =
        hpke_decrypt task_id (input_share_info p is_leader) (aad_wire task_id r)
          r.encrypted_input_share in
      let (to, from) =
        consume_decrypted_iff p t r prep_init_payload metadata public_share input_share peer
          answer in
      let (passed, pass) =
        guarded (leb t.not_after time) (ltb time range.start) (ltb range.end time) r.report_metadata
          task_expired report_dropped report_too_early
          (consume_decrypted p t r prep_init_payload answer) metadata public_share input_share
          peer in
      let (inside, outside) = in_range time t.not_after range.start range.end in
      rw (aad_written task_id r id meta short) (
        λ h.
            let (a, b, d, o) = passed h in
            let (a', b', d') = inside (a, b, d) in (a', b', d', to o),
        λ h.
            let (a, b, d, o) = h in
            let (a', b', d') = outside (a, b, d) in pass (a', b', d', from o),
      )
