-- ===== src/Messages/Collection.antt =====
-- The messages of the collection sub-protocol (crates/daphne/src/messages/mod.rs).
pub mod RoundTrip
use daphne.Common.{ℕ}
use daphne.Codec.Base.{Bytes, Writer, Reader, ◌>>◌, done, ◌>>=◌, pure, extend, read_exact}
use daphne.Codec.Prio.{Prio}
use daphne.Codec.Lengths.{encode_u32_bytes, decode_u32_bytes}
use daphne.Messages.Ids.{Array}
use daphne.Messages.Report.{HpkeCiphertext, encode_ciphertext, decode_ciphertext}
use daphne.Messages.Batch.{
  Interval, PartialBatchSelector, BatchSelector, Query, encode_part_batch_sel,
  decode_part_batch_sel, encode_interval, decode_interval, encode_batch_sel, decode_batch_sel,
  encode_query, decode_query,
}

pub record CollectionReq : Type 0 where
  pub query : Query
  pub agg_param : Bytes

-- The array of two ciphertexts, the Leader's and the Helper's.
pub record Collection : Type 0 where
  pub part_batch_sel : PartialBatchSelector
  pub report_count : ℕ
  pub interval : Interval
  pub leader_agg_share : HpkeCiphertext
  pub helper_agg_share : HpkeCiphertext

pub record AggregateShareReq : Type 0 where
  pub batch_sel : BatchSelector
  pub agg_param : Bytes
  pub report_count : ℕ
  pub checksum : Array 32

pub record AggregateShare : Type 0 where
  pub encrypted_agg_share : HpkeCiphertext

module _ (p : Prio) where
  unfoldable pub encode_collection_req : CollectionReq → Writer
  encode_collection_req r = do encode_query p r.query; encode_u32_bytes p r.agg_param; done

  unfoldable pub decode_collection_req : Reader CollectionReq
  decode_collection_req = do
    query ← decode_query p
    agg_param ← decode_u32_bytes p
    pure (record { query = query; agg_param = agg_param })

  unfoldable pub encode_collection : Collection → Writer
  encode_collection c = do
    encode_part_batch_sel p c.part_batch_sel
    p.encode_uint 8 c.report_count
    encode_interval p c.interval
    encode_ciphertext p c.leader_agg_share
    encode_ciphertext p c.helper_agg_share
    done

  unfoldable pub decode_collection : Reader Collection
  decode_collection = do
    part_batch_sel ← decode_part_batch_sel p
    report_count ← p.decode_uint 8
    interval ← decode_interval p
    leader_agg_share ← decode_ciphertext p
    helper_agg_share ← decode_ciphertext p
    pure (record {
      part_batch_sel = part_batch_sel;
      report_count = report_count;
      interval = interval;
      leader_agg_share = leader_agg_share;
      helper_agg_share = helper_agg_share;
    })

  unfoldable pub encode_agg_share_req : AggregateShareReq → Writer
  encode_agg_share_req r = do
    encode_batch_sel p r.batch_sel
    encode_u32_bytes p r.agg_param
    p.encode_uint 8 r.report_count
    extend r.checksum
    done

  unfoldable pub decode_agg_share_req : Reader AggregateShareReq
  decode_agg_share_req = do
    batch_sel ← decode_batch_sel p
    agg_param ← decode_u32_bytes p
    report_count ← p.decode_uint 8
    checksum ← read_exact 32
    pure (record {
      batch_sel = batch_sel;
      agg_param = agg_param;
      report_count = report_count;
      checksum = checksum;
    })

  unfoldable pub encode_agg_share : AggregateShare → Writer
  encode_agg_share s = encode_ciphertext p s.encrypted_agg_share

  unfoldable pub decode_agg_share : Reader AggregateShare
  decode_agg_share = do
    encrypted_agg_share ← decode_ciphertext p
    pure (record { encrypted_agg_share = encrypted_agg_share })
