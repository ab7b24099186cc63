-- ===== src/Codec.antt =====
-- The decoders of @liskhq/lisk-codec at the schemas of src/schemas.ts. The codec is not the
-- migrator's code, so the definitions that decode take these functions as a parameter.
use lisk_migrator.Common.{Bytes, List, Result}
use lisk_migrator.Types.{Account, UnregisteredAccount, VoteWeight}
use lisk_migrator.Utils.Block.{BlockHeader, Transaction}

pub record Codec : Type 0 where
  -- at `accountSchema`
  pub account : Bytes → Result Account
  -- at `unregisteredAddressesSchema`
  pub unregistered_addresses : Bytes → Result (List UnregisteredAccount)
  -- at `voteWeightsSchema`
  pub vote_weights : Bytes → Result (List VoteWeight)
  -- at `blockHeaderSchema`
  pub block_header : Bytes → Result BlockHeader
  -- at `transactionSchema`
  pub transaction : Bytes → Result Transaction
