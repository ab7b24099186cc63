-- ===== src/Utils/Transaction.antt =====
-- src/utils/transaction.ts: keys as binary strings and their increment.
pub mod Increment
use lisk_migrator.Common.{
  ℕ, zero, suc, ◌+◌, ◌%◌, Bytes, Text, length, get_or, set, Result, ok, err, maximum_input, leb,
  if◌then◌else◌,
}

-- `key.toString('binary')` makes a code unit of each byte.
abbrev pub key_string : Bytes → Text
key_string key = key

-- The loop of `incrementOne`, from the index below `i` down to 0, over the copy of the input.
increment_from : ℕ → Bytes → Result Bytes
increment_from zero copied = err maximum_input
increment_from (suc i) copied =
    let sum = get_or copied i 0 + 1 in
    let written = set copied i (sum % 256) in
    let rest = increment_from i written in if leb sum 255 then ok written else rest

unfoldable pub increment_one : Bytes → Result Bytes
unfolding increment_from
increment_one input = increment_from (length input) input
