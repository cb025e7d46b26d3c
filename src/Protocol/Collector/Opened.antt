-- ===== src/Protocol/Collector/Opened.antt =====
-- What the Collector makes of the aggregate shares of the Aggregators.
use daphne.Common.{ℕ, ◌≡◌, Bool, true, false, Option, none, some, List, [], ◌∷◌}
use daphne.Codec.Base as Codec
use daphne.Codec.Base.{Bytes, Writer, ◌>>◌}
use daphne.Codec.Prio.{Prio}
use daphne.Errors.{ok, bind_parts}
use daphne.Messages.Ids.{TaskId}
use daphne.Messages.Batch.{BatchSelector}
use daphne.Messages.Report.{HpkeCiphertext}
use daphne.Messages.Hpke.{HpkeConfig}
use daphne.Task.{VdafConfig}
use daphne.Share.{Crypto, VdafAggregateShare, DapAggregateShare}
use daphne.Protocol.Vdaf.{VdafResult}
use daphne.Protocol.Report.{encoding, HpkeDecrypter}
use daphne.Protocol.Init.{DapAggregationParam}
use daphne.Protocol.AggShare.{
  HpkeEncrypter, agg_share_info, agg_share_aad, agg_data_or, produce_encrypted_agg_share,
}
use daphne.Protocol.Client.Consumed.{Opens}
use daphne.Protocol.Collector.{
  or_fatal, collector_aad, decrypt_shares, consume_encrypted_agg_shares,
}

module _ (p : Prio) {c : Crypto} (encode_agg_data : VdafAggregateShare c → Writer) where
  -- The plaintext of an encrypted aggregate share: its encoded field vector.
  abbrev pub IsEncoded : DapAggregateShare c → Bytes → Type 0
  IsEncoded agg_share plaintext =
      (agg_data : VdafAggregateShare c) × (agg_share.agg_data ≡ some agg_data)
      × (p.get_encoded (encode_agg_data agg_data) ≡ Codec.ok plaintext)

  some_data :
      (o : Option (VdafAggregateShare c)) (agg_data : VdafAggregateShare c)
      (hpke_encrypt : HpkeEncrypter)
      → agg_data_or p encode_agg_data hpke_encrypt o ≡ ok agg_data
      → o ≡ some agg_data
  unfolding agg_data_or
  some_data none agg_data hpke_encrypt e = cc
  some_data (some x) agg_data hpke_encrypt e = cc

  encoding_ok : (r : Codec.Result Bytes) (s : Bytes) → encoding r ≡ ok s → r ≡ Codec.ok s
  encoding_ok (Codec.ok x) s e = cc
  encoding_ok (Codec.err x) s e = cc
  encoding_ok Codec.panic s e = cc

  module _ (hpke_encrypt : HpkeEncrypter) (hpke_config : HpkeConfig) (hpke_decrypt : HpkeDecrypter)
      (opens : Opens hpke_encrypt hpke_config hpke_decrypt) (task_id : TaskId)
      (batch_sel : BatchSelector) (agg_param : DapAggregationParam) (is_leader : Bool)
      (agg_share : DapAggregateShare c) (ciphertext : HpkeCiphertext) where
    produce_encrypted_agg_share-decrypt :
        produce_encrypted_agg_share p encode_agg_data hpke_encrypt is_leader hpke_config task_id
            batch_sel agg_param agg_share
          ≡ ok ciphertext
        → (plaintext : Bytes) × (aad : Bytes) × IsEncoded agg_share plaintext
          × (collector_aad p task_id agg_param batch_sel [] ≡ Codec.ok aad)
          × (hpke_decrypt task_id
                (agg_share_info p encode_agg_data hpke_encrypt is_leader)
                aad
                ciphertext
              ≡ ok plaintext)
    unfolding produce_encrypted_agg_share collector_aad
    produce_encrypted_agg_share-decrypt e =
        let (agg_data, e0, e1) =
          bind_parts (agg_data_or p encode_agg_data hpke_encrypt agg_share.agg_data) _ ciphertext
            e in
        let (plaintext, e2, e3) =
          bind_parts (encoding (p.get_encoded (encode_agg_data agg_data))) _ ciphertext e1 in
        let (aad, e4, e5) =
          bind_parts
            (encoding (agg_share_aad p encode_agg_data hpke_encrypt task_id agg_param batch_sel []))
            _ ciphertext e3 in
        (
          plaintext,
          aad,
          (
            agg_data,
            some_data agg_share.agg_data agg_data hpke_encrypt e0,
            encoding_ok (p.get_encoded (encode_agg_data agg_data)) plaintext e2,
          ),
          encoding_ok (collector_aad p task_id agg_param batch_sel []) aad e4,
          opens task_id (agg_share_info p encode_agg_data hpke_encrypt is_leader) aad plaintext
              ciphertext e5,
        )

  -- The Collector unshards what the Aggregators sealed to it, for HPKE that opens what it seals. If
  -- the Leader and the Helper have encrypted their aggregate shares of a batch to the Collector, then
  -- the Collector, for the same task, batch and aggregation parameter, gets the result of unsharding
  -- the encoded field vectors of the two shares, the Leader's first.
  pub consume_encrypted_agg_shares-unshard :
      (hpke_encrypt : HpkeEncrypter) (hpke_config : HpkeConfig) (hpke_decrypt : HpkeDecrypter)
      {DapAggregateResult : Type 0}
      (unshard : VdafConfig → DapAggregationParam → ℕ → List Bytes → VdafResult DapAggregateResult)
      (vdaf : VdafConfig) (task_id : TaskId) (batch_sel : BatchSelector) (report_count : ℕ)
      (agg_param : DapAggregationParam) (leader_share helper_share : DapAggregateShare c)
      (leader_sealed helper_sealed : HpkeCiphertext)
      → Opens hpke_encrypt hpke_config hpke_decrypt
      → produce_encrypted_agg_share p encode_agg_data hpke_encrypt true hpke_config task_id
          batch_sel agg_param leader_share
        ≡ ok leader_sealed
      → produce_encrypted_agg_share p encode_agg_data hpke_encrypt false hpke_config task_id
          batch_sel agg_param helper_share
        ≡ ok helper_sealed
      → (leader_data helper_data : Bytes) × IsEncoded leader_share leader_data
        × IsEncoded helper_share helper_data
        × (consume_encrypted_agg_shares p hpke_decrypt unshard vdaf task_id batch_sel report_count
              agg_param
              (leader_sealed ∷ helper_sealed ∷ [])
            ≡ or_fatal (unshard vdaf agg_param report_count (leader_data ∷ helper_data ∷ [])))
  unfolding consume_encrypted_agg_shares decrypt_shares
  consume_encrypted_agg_shares-unshard hpke_encrypt hpke_config hpke_decrypt unshard vdaf task_id
        batch_sel report_count agg_param leader_share helper_share leader_sealed helper_sealed opens
        leader helper =
      let (leader_data, aad, leader_encoded, written, opened) =
        produce_encrypted_agg_share-decrypt hpke_encrypt hpke_config hpke_decrypt opens task_id
          batch_sel agg_param true leader_share leader_sealed leader in
      let (helper_data, aad', helper_encoded, written', opened') =
        produce_encrypted_agg_share-decrypt hpke_encrypt hpke_config hpke_decrypt opens task_id
          batch_sel agg_param false helper_share helper_sealed helper in
      let same : aad' ≡ aad = cc in
      (
        leader_data,
        helper_data,
        leader_encoded,
        helper_encoded,
        rw (written, opened, rw same at opened'),
      )
