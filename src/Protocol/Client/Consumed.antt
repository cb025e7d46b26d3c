-- ===== src/Protocol/Client/Consumed.antt =====
-- What the Aggregators make of the report of a Client.
use daphne.Common.{
  ◌+◌, ◌^◌, ◌<◌, ◌≤◌, ◌≡◌, refl, ◌∙◌, Bool, true, false, Option, none, some, [], ◌++◌, length,
  length-append, append-nil, flatten, map, arith,
}
use daphne.Codec.Base as Codec
use daphne.Codec.Base.{Bytes, Writer, Reader, isize_end}
use daphne.Codec.Prio.{Prio, PrioLaws}
use daphne.Codec.RoundTrip.{RoundTrips, Appends-seq, vector}
use daphne.Codec.Lengths.RoundTrip.{RoundTrips-u32_bytes}
use daphne.Errors.{ok, bind_parts}
use daphne.Messages.Ids.{TaskId, IsArray, RoundTrips-id}
use daphne.Messages.Report.{
  ReportMetadata, HpkeCiphertext, Report, ReportShare, PlaintextInputShare, decode_input_share,
}
use daphne.Messages.Report.RoundTrip.{
  IsMetadata, RoundTrips-metadata, IsInputShare, input_share_wire, extension_wire,
  RoundTrips-input_share,
}
use daphne.Messages.Hpke.{HpkeConfig}
use daphne.Task.{DapTaskConfig}
use daphne.Protocol.Report.{
  ready, TimeRange, HpkeDecrypter, input_share_info, peer_prep_share_of, consume, encoding,
}
use daphne.Protocol.Report.Extensions.{expected_extensions}
use daphne.Protocol.Report.Ready.{aad_wire, consume_iff, IsDecrypted}
use daphne.Protocol.AggShare.{HpkeEncrypter}
use daphne.Protocol.Client.{report_aad, seal_input_share, produce_report_with_extensions_for_shares}

-- What HPKE promises: who holds the key to the configuration opens what was sealed to it, under the
-- same info string and associated data.
abbrev pub Opens : HpkeEncrypter → HpkeConfig → HpkeDecrypter → Type 0
Opens hpke_encrypt hpke_config hpke_decrypt =
    (task_id : TaskId) (info aad plaintext : Bytes) (c : HpkeCiphertext)
    → hpke_encrypt hpke_config info aad plaintext ≡ ok c
    → hpke_decrypt task_id info aad c ≡ ok plaintext

-- What the Aggregator of the role gets of a report.
abbrev pub share_for : Bool → Report → ReportShare
share_for true r = record {
  report_metadata = r.report_metadata;
  public_share = r.public_share;
  encrypted_input_share = r.leader_share;
}
share_for false r = record {
  report_metadata = r.report_metadata;
  public_share = r.public_share;
  encrypted_input_share = r.helper_share;
}

module _ {p : Prio} (laws : PrioLaws p) where
  encoded :
      {A : Type 0} {w : Writer} {r : Reader A} {x : A} {s : Bytes}
      → RoundTrips w r x s
      → p.get_encoded w ≡ Codec.ok s
  encoded {w} h = laws.get_encoded_lem w ∙ h.appends.at []

  decoded :
      {A : Type 0} {w : Writer} (r : Reader A) {x : A} {s : Bytes}
      → RoundTrips w r x s
      → length s < isize_end
      → p.get_decoded A r s ≡ Codec.ok x
  decoded {A} r {x} {s} h fits =
      let bound : 0 + length (s ++ []) < isize_end = rw (append-nil s) (omega arith) in
      let e = h.reads.at 0 [] bound in
      let e' = rw (append-nil s) at e in laws.get_decoded_lem A r s x _ e' refl

  input_share_wire_fits :
      (s : PlaintextInputShare) → IsInputShare s → length (input_share_wire s) < isize_end
  input_share_wire_fits s h =
      let body = flatten (map extension_wire s.extensions) in
      omega (
        arith,
        length-append body (vector 4 s.payload ++ []),
        length-append s.payload [],
        h.payload,
        h.extensions_fit,
      )

  expected-IsInputShare :
      (is_taskprov : Bool) (payload : Bytes)
      → length payload < 256 ^ 4
      → IsInputShare (record { extensions = expected_extensions is_taskprov; payload = payload })
  expected-IsInputShare true payload h = record {
    extensions = omega arith;
    extensions_fit = omega arith;
    payload = h;
  }
  expected-IsInputShare false payload h = record {
    extensions = tt;
    extensions_fit = omega arith;
    payload = h;
  }

  module _ (hpke_encrypt : HpkeEncrypter) (hpke_config : HpkeConfig) (hpke_decrypt : HpkeDecrypter)
      (opens : Opens hpke_encrypt hpke_config hpke_decrypt) (range : TimeRange) (is_leader : Bool)
      (task_id : TaskId) (t : DapTaskConfig) (r : ReportShare) (input_share : Bytes)
      (prep_init_payload peer : Option Bytes) where
    abbrev plaintext : PlaintextInputShare
    plaintext = record {
      extensions = expected_extensions t.method_is_taskprov;
      payload = input_share;
    }

    sealed-IsDecrypted :
        length input_share < 256 ^ 4
        → peer_prep_share_of p prep_init_payload ≡ Codec.ok peer
        → seal_input_share p hpke_encrypt is_leader hpke_config
            (aad_wire laws task_id r)
            plaintext.extensions
            input_share
          ≡ ok r.encrypted_input_share
        → IsDecrypted p t r prep_init_payload r.report_metadata r.public_share input_share peer (
            hpke_decrypt task_id
              (input_share_info p is_leader)
              (aad_wire laws task_id r)
              r.encrypted_input_share)
    unfolding seal_input_share
    sealed-IsDecrypted fits framed e =
        let valid = expected-IsInputShare t.method_is_taskprov input_share fits in
        let trip = RoundTrips-input_share laws plaintext valid in
        let e' = rw (encoded trip) at e in
        rw
          (
            opens task_id (input_share_info p is_leader) (aad_wire laws task_id r)
                (input_share_wire plaintext) r.encrypted_input_share e',
            decoded (decode_input_share p) trip (input_share_wire_fits plaintext valid),
          )
          (refl, (refl, refl, refl), framed)

    -- The Aggregator that the share is sealed to is ready with it.
    sealed-ready :
        IsArray 32 task_id
        → IsMetadata r.report_metadata
        → length r.public_share < 256 ^ 4
        → length input_share < 256 ^ 4
        → r.report_metadata.time < t.not_after
        → range.start ≤ r.report_metadata.time
        → r.report_metadata.time ≤ range.end
        → peer_prep_share_of p prep_init_payload ≡ Codec.ok peer
        → seal_input_share p hpke_encrypt is_leader hpke_config
            (aad_wire laws task_id r)
            plaintext.extensions
            input_share
          ≡ ok r.encrypted_input_share
        → consume p hpke_decrypt range is_leader task_id t r prep_init_payload
          ≡ ok (ready r.report_metadata r.public_share input_share peer)
    sealed-ready id meta short fits before lo hi framed e =
        (consume_iff laws hpke_decrypt range is_leader task_id t r prep_init_payload
            r.report_metadata r.public_share input_share peer id meta short).1
          (before, lo, hi, sealed-IsDecrypted fits framed e)

  report_aad_written :
      (task_id : TaskId) (r : ReportShare)
      → IsArray 32 task_id
      → IsMetadata r.report_metadata
      → length r.public_share < 256 ^ 4
      → report_aad p task_id r.report_metadata r.public_share []
        ≡ Codec.ok (aad_wire laws task_id r)
  unfolding report_aad
  report_aad_written task_id r id meta short =
      (Appends-seq (RoundTrips-id 32 task_id id).appends (
          Appends-seq (RoundTrips-metadata laws r.report_metadata meta).appends
            (RoundTrips-u32_bytes laws r.public_share short).appends)).at
        []

  -- A report that a Client makes for a task is one that both Aggregators are ready with. For a codec
  -- with the laws of PrioLaws, HPKE that opens what it seals, byte strings within the limits of their
  -- fields, the extensions that the task expects, and a time before the end of the task and in the
  -- Aggregators' ranges: if the Client makes a report, then the Leader consumes its share as ready,
  -- with the report's metadata, its public share and the Leader's input share; so does the Helper,
  -- with its own input share and the peer's preparation share in the frame that it gets.
  pub produce_report-consume :
      (hpke_encrypt : HpkeEncrypter) (leader_config helper_config : HpkeConfig)
      (leader_decrypt helper_decrypt : HpkeDecrypter) (leader_range helper_range : TimeRange)
      (task_id : TaskId) (t : DapTaskConfig) (m : ReportMetadata)
      (public_share leader_input helper_input frame peer : Bytes) (report : Report)
      → Opens hpke_encrypt leader_config leader_decrypt
      → Opens hpke_encrypt helper_config helper_decrypt
      → IsArray 32 task_id
      → IsMetadata m
      → length public_share < 256 ^ 4
      → length leader_input < 256 ^ 4
      → length helper_input < 256 ^ 4
      → m.time < t.not_after
      → (leader_range.start ≤ m.time) × (m.time ≤ leader_range.end)
      → (helper_range.start ≤ m.time) × (m.time ≤ helper_range.end)
      → peer_prep_share_of p (some frame) ≡ Codec.ok (some peer)
      → produce_report_with_extensions_for_shares p hpke_encrypt public_share
          (leader_input, helper_input)
          (leader_config, helper_config)
          m.time
          task_id
          m.id
          (expected_extensions t.method_is_taskprov)
        ≡ ok report
      → (consume p leader_decrypt leader_range true task_id t (share_for true report) none
          ≡ ok (ready m public_share leader_input none))
        × (consume p helper_decrypt helper_range false task_id t
              (share_for false report)
              (some frame)
            ≡ ok (ready m public_share helper_input (some peer)))
  unfolding produce_report_with_extensions_for_shares peer_prep_share_of
  produce_report-consume hpke_encrypt leader_config helper_config leader_decrypt helper_decrypt
        leader_range helper_range task_id t m public_share leader_input helper_input frame peer
        report leader_opens helper_opens id meta short leader_fits helper_fits before leader_time
        helper_time framed e =
      let extensions = expected_extensions t.method_is_taskprov in
      let seal = λ (is_leader : Bool) (config : HpkeConfig) (aad input : Bytes).
        seal_input_share p hpke_encrypt is_leader config aad extensions input in
      let (aad, written, e1) =
        bind_parts (encoding (report_aad p task_id m public_share [])) _ report e in
      let (leader_share, sealed, e2) =
        bind_parts (seal true leader_config aad leader_input) _ report e1 in
      let (helper_share, sealed', e3) =
        bind_parts (seal false helper_config aad helper_input) _ report e2 in
      let made : Report = record {
        report_metadata = m;
        public_share = public_share;
        leader_share = leader_share;
        helper_share = helper_share;
      } in
      let same : made ≡ report = cc in
      let written' =
        rw (report_aad_written task_id (share_for true made) id meta short) at written in
      let aad_same : aad_wire laws task_id (share_for true made) ≡ aad = cc in
      rw (← same) (
        sealed-ready hpke_encrypt leader_config leader_decrypt leader_opens leader_range true
            task_id t (share_for true made) leader_input none none id meta short leader_fits before
            leader_time.0 leader_time.1 refl (rw aad_same sealed),
        sealed-ready hpke_encrypt helper_config helper_decrypt helper_opens helper_range false
            task_id t (share_for false made) helper_input (some frame) (some peer) id meta short
            helper_fits before helper_time.0 helper_time.1 framed (rw aad_same sealed'),
      )
