-- ===== src/Messages/Collection/RoundTrip.antt =====
-- The wire format of the collection messages, and that decoding is the inverse of encoding.
use daphne.Common.{◌^◌, ◌<◌, refl, [], ◌∷◌, flatten, length}
use daphne.Codec.Base.{Bytes}
use daphne.Codec.Prio.{Prio, PrioLaws, to_be_bytes}
use daphne.Codec.RoundTrip.{
  RoundTrips, RoundTrips-bind, RoundTrips-done, RoundTrips-uint, RoundTrips-array, RoundTrips-last,
  vector,
}
use daphne.Codec.Lengths.RoundTrip.{RoundTrips-u32_bytes}
use daphne.Messages.Ids.{IsArray}
use daphne.Messages.Report.RoundTrip.{IsCiphertext, ciphertext_wire, RoundTrips-ciphertext}
use daphne.Messages.Batch.RoundTrip.{
  IsQuery, IsInterval, IsPartBatchSel, IsBatchSel, query_wire, interval_wire, part_batch_sel_wire,
  batch_sel_wire, RoundTrips-query, RoundTrips-interval, RoundTrips-part_batch_sel,
  RoundTrips-batch_sel,
}
use daphne.Messages.Collection.{
  CollectionReq, Collection, AggregateShareReq, AggregateShare, encode_collection_req,
  decode_collection_req, encode_collection, decode_collection, encode_agg_share_req,
  decode_agg_share_req, encode_agg_share, decode_agg_share,
}

pub record IsCollectionReq (r : CollectionReq) : Type 0 where
  pub query : IsQuery r.query
  pub agg_param : length r.agg_param < 256 ^ 4

pub record IsCollection (c : Collection) : Type 0 where
  pub part_batch_sel : IsPartBatchSel c.part_batch_sel
  pub report_count : c.report_count < 256 ^ 8
  pub interval : IsInterval c.interval
  pub leader_agg_share : IsCiphertext c.leader_agg_share
  pub helper_agg_share : IsCiphertext c.helper_agg_share

pub record IsAggShareReq (r : AggregateShareReq) : Type 0 where
  pub batch_sel : IsBatchSel r.batch_sel
  pub agg_param : length r.agg_param < 256 ^ 4
  pub report_count : r.report_count < 256 ^ 8
  pub checksum : IsArray 32 r.checksum

abbrev pub collection_req_wire : CollectionReq → Bytes
collection_req_wire r = flatten (query_wire r.query ∷ vector 4 r.agg_param ∷ [])

abbrev pub collection_wire : Collection → Bytes
collection_wire c = flatten (
    part_batch_sel_wire c.part_batch_sel
    ∷ to_be_bytes 8 c.report_count
    ∷ interval_wire c.interval
    ∷ ciphertext_wire c.leader_agg_share
    ∷ ciphertext_wire c.helper_agg_share
    ∷ [])

abbrev pub agg_share_req_wire : AggregateShareReq → Bytes
agg_share_req_wire r = flatten (
    batch_sel_wire r.batch_sel
    ∷ vector 4 r.agg_param
    ∷ to_be_bytes 8 r.report_count
    ∷ r.checksum
    ∷ [])

module _ {p : Prio} (laws : PrioLaws p) where
  -- For every codec with the laws of `PrioLaws` and every collection request whose query is valid
  -- and whose aggregation parameter fits its length prefix (`IsCollectionReq`): the encoder
  -- appends exactly the bytes of its wire format to what was written before, and the decoder,
  -- wherever those bytes stand in a buffer of less than 2^63 bytes and whatever follows them,
  -- returns the value and stops behind them.
  pub RoundTrips-collection_req :
      (r : CollectionReq)
      → IsCollectionReq r
      → RoundTrips (encode_collection_req p r) (decode_collection_req p) r (collection_req_wire r)
  unfolding encode_collection_req decode_collection_req
  RoundTrips-collection_req r h =
      RoundTrips-bind _ (RoundTrips-query laws r.query h.query)
        (RoundTrips-bind _ (RoundTrips-u32_bytes laws r.agg_param h.agg_param) RoundTrips-done)

  -- For every codec with the laws of `PrioLaws` and every collection whose numbers and ciphertexts
  -- fit their fields (`IsCollection`): the encoder appends exactly the bytes of its wire format to
  -- what was written before, and the decoder, wherever those bytes stand in a buffer of less than
  -- 2^63 bytes and whatever follows them, returns the value and stops behind them.
  pub RoundTrips-collection :
      (c : Collection)
      → IsCollection c
      → RoundTrips (encode_collection p c) (decode_collection p) c (collection_wire c)
  unfolding encode_collection decode_collection
  RoundTrips-collection c h =
      RoundTrips-bind _ (RoundTrips-part_batch_sel laws c.part_batch_sel h.part_batch_sel) (
        RoundTrips-bind _ (RoundTrips-uint laws 8 c.report_count h.report_count) (
          RoundTrips-bind _ (RoundTrips-interval laws c.interval h.interval) (
            RoundTrips-bind _ (RoundTrips-ciphertext laws c.leader_agg_share h.leader_agg_share) (
              RoundTrips-bind _ (RoundTrips-ciphertext laws c.helper_agg_share h.helper_agg_share)
                RoundTrips-done))))

  -- For every codec with the laws of `PrioLaws` and every aggregate-share request whose checksum
  -- is 32 bytes and whose parts fit their fields (`IsAggShareReq`): the encoder appends exactly
  -- the bytes of its wire format to what was written before, and the decoder, wherever those bytes
  -- stand in a buffer of less than 2^63 bytes and whatever follows them, returns the value and
  -- stops behind them.
  pub RoundTrips-agg_share_req :
      (r : AggregateShareReq)
      → IsAggShareReq r
      → RoundTrips (encode_agg_share_req p r) (decode_agg_share_req p) r (agg_share_req_wire r)
  unfolding encode_agg_share_req decode_agg_share_req
  RoundTrips-agg_share_req r h =
      RoundTrips-bind _ (RoundTrips-batch_sel laws r.batch_sel h.batch_sel) (
        RoundTrips-bind _ (RoundTrips-u32_bytes laws r.agg_param h.agg_param) (
          RoundTrips-bind _ (RoundTrips-uint laws 8 r.report_count h.report_count)
            (RoundTrips-bind _ (RoundTrips-array 32 r.checksum h.checksum) RoundTrips-done)))

  pub RoundTrips-agg_share :
      (s : AggregateShare)
      → IsCiphertext s.encrypted_agg_share
      → RoundTrips
          (encode_agg_share p s)
          (decode_agg_share p)
          s
          (ciphertext_wire s.encrypted_agg_share)
  unfolding encode_agg_share decode_agg_share
  RoundTrips-agg_share s h =
      RoundTrips-last _ s (RoundTrips-ciphertext laws s.encrypted_agg_share h) refl
