-- ===== src/Crypto.antt =====
-- The functions of the cryptography library that the migrator calls. They are not its own code, so
-- every definition that uses them takes them as a parameter.
use lisk_migrator.Common.{Bytes, Text}

pub record Crypto : Type 0 where
  -- `utils.hash`
  pub hash : Bytes → Bytes
  -- `address.getLisk32AddressFromAddress`
  pub lisk32_address : Bytes → Text
  -- `address.getAddressFromPublicKey`
  pub address_of_public_key : Bytes → Bytes
