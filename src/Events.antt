-- ===== src/Events.antt =====
-- src/events.ts: what the subscription to new blocks does with each event. The node's client, the
-- cryptography library and the write of the file are parameters.
use lisk_migrator.Common.{
  ℕ, ◌==◌, List, [], ◌∷◌, map, Bool, Option, Text, if◌then◌else◌, Result, ok, err,
}

-- What `app:getForgingStatus` answers for a validator.
pub record ForgingEntry : Type 0 where
  pub address : Text
  pub forging : Bool
  pub height : Option ℕ
  pub max_height_prevoted : Option ℕ
  pub max_height_previously_forged : Option ℕ

pub record FinalStatus : Type 0 where
  pub status : ForgingEntry
  pub lsk_address : Text

-- What the handler has done: nothing, written the file, or shown its content instead.
pub data Captured : Type 0 where
  nothing : Captured
  file_written : List FinalStatus → Captured
  logged : List FinalStatus → Captured

pub record Node : Type 0 where
  -- `client.block.decode` of the block's hex
  pub height_of : Text → Result ℕ
  -- the statuses at an event
  pub forging_status : ℕ → Result (List ForgingEntry)
  pub lisk32_address_of : Text → Text
  pub write : List FinalStatus → Result (Unit {0})

module _ (node : Node) (snapshot_height : ℕ) where
  abbrev pub final_status : ForgingEntry → FinalStatus
  final_status entry = record { status = entry; lsk_address = node.lisk32_address_of entry.address }

  abbrev pub saved : List FinalStatus → Result (Unit {0}) → Captured
  saved statuses (ok done) = file_written statuses
  saved statuses (err e) = logged statuses

  -- A status that cannot be had rejects the handler.
  abbrev pub captured : Result (List ForgingEntry) → Captured
  captured (err e) = nothing
  captured (ok []) = nothing
  captured (ok (entry ∷ entries)) =
      saved (map final_status (entry ∷ entries)) (node.write (map final_status (entry ∷ entries)))

  abbrev pub at_height : Result ℕ → Result (List ForgingEntry) → Captured
  at_height (err e) statuses = nothing
  at_height (ok height) statuses = if height == snapshot_height then captured statuses else nothing

  -- The handler, for the block of an event with its number.
  unfoldable pub on_new_block : ℕ → Text → Captured
  on_new_block event encoded_block =
      at_height (node.height_of encoded_block) (node.forging_status event)
