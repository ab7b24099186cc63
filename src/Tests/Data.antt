-- ===== src/Tests/Data.antt =====
-- Test data: accounts, and stand-ins for the cryptography library.
use lisk_migrator.Common.{ℕ, List, [], ◌∷◌, Bool, true, false, Bytes, Text, codes, replicate, drop}
use lisk_migrator.Crypto.{Crypto}
use lisk_migrator.Types.{Account, Buffer, Vote, DelegateWeight, VoteWeight}

-- The address of a public key is its last 20 bytes.
abbrev pub crypto : Crypto
crypto = record {
  hash = λ bytes. replicate 32 7;
  lisk32_address = λ address. 108 ∷ 115 ∷ 107 ∷ address;
  address_of_public_key = drop 12;
}

abbrev pub account_of : Buffer → ℕ → Text → List Vote → Bool → Account
account_of address balance username votes is_banned = record {
  address = address;
  token = record { balance = balance };
  sequence = record { nonce = 12 };
  keys = record {
    mandatory_keys = (3 ∷ []) ∷ (1 ∷ []) ∷ [];
    optional_keys = (200 ∷ []) ∷ [];
    number_of_signatures = 2;
  };
  dpos = record {
    delegate = record {
      username = username;
      pom_heights = [];
      consecutive_missed_blocks = 0;
      last_forged_height = 5;
      is_banned = is_banned;
      total_votes_received = 0;
    };
    sent_votes = votes;
    unlocking = [];
  };
}

abbrev pub alice_address : Bytes
alice_address = replicate 20 9

-- A banned delegate with a vote.
abbrev pub alice : Account
alice =
    account_of (record { ref = 0; bytes = alice_address }) 30 (codes "alice")
      (record { delegate_address = alice_address; amount = 7 } ∷ []) true

-- The account of the legacy reserve.
abbrev pub reserve_account : Account
reserve_account = account_of (record { ref = 1; bytes = replicate 20 7 }) 5 [] [] false

-- A delegate's entry with alice's address in a Buffer object of its own.
abbrev pub alice_weight : DelegateWeight
alice_weight = record { address = record { ref = 2; bytes = alice_address }; vote_weight = 7 }

abbrev pub round_0 : VoteWeight
round_0 = record { round = 0; delegates = alice_weight ∷ [] }
