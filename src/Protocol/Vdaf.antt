-- ===== src/Protocol/Vdaf.antt =====
-- What the protocol calls of crates/daphne/src/vdaf: the preparation of one report. The VDAFs
-- themselves are behind this interface, for a task's VDAF configuration and verification key.
use daphne.Common.{Bool}
use daphne.Codec.Base.{Bytes, Writer}
use daphne.Errors.{DapError}
use daphne.Messages.Ids.{ReportId}
use daphne.Share.{Crypto, VdafAggregateShare}

pub data VdafError : Type 0 where
  codec vdaf : VdafError
  dap : DapError → VdafError

pub data VdafResult {ℓ} (A : Type ℓ) : Type ℓ where
  ok : A → VdafResult A
  err : VdafError → VdafResult A

-- `prep_init` takes whether the aggregator is the Leader, the report ID as the nonce, the public
-- share and the input share. `prep_finish_from_shares` is the Helper's and takes the Leader's encoded
-- preparation share; it returns the output share with the preparation message, from which
-- `prep_finish` computes the Leader's output share.
pub record Vdaf (c : Crypto) : Type 1 where
  pub VdafPrepState : Type 0
  pub VdafPrepShare : Type 0
  pub prep_init : Bool → ReportId → Bytes → Bytes → VdafResult (VdafPrepState × VdafPrepShare)
  pub encode_prep_share : VdafPrepShare → Writer
  pub prep_finish_from_shares :
      VdafPrepState → VdafPrepShare → Bytes → VdafResult (VdafAggregateShare c × Bytes)
  pub prep_finish : VdafPrepState → Bytes → VdafResult (VdafAggregateShare c)
