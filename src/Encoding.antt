-- ===== src/Encoding.antt =====
-- The encodings of Node's Buffer and of BigInt that the migrator uses: hex and decimal text.
pub mod Hex
pub mod Decimal
pub mod Utf8
