-- ===== src/Utils/Block/Paging/Loop.antt =====
-- The loop of `getBlockPublicKeySet` and of `getTransactionPublicKeySet` as a whole.
use lisk_migrator.Common.{
  ℕ, zero, suc, ◌≤◌, ◌<◌, ◌≡◌, refl, ◌∙◌, ap, ◌⊎◌, inl, inr, List, [], ◌∷◌, length, take, drop,
  keep, arith, Bool, true, false, ◌||◌, Bytes, Text, replicate, same, Result, ok, ◌>>=◌,
}
use lisk_migrator.Common.Dict.{add}
use lisk_migrator.Common.Predicates.{All, keep-All}
use lisk_migrator.Constants.{db_key_blocks_id, db_key_transactions_id}
use lisk_migrator.Database.{Db, Entry, Holds, at_most, in_range, IsAscending}
use lisk_migrator.Encoding.Hex.{hex}
use lisk_migrator.Utils.Block.Paging.Ids.{
  HaveIdKeys, HaveIdKeys-IsSteppable, are_bytes, are_bytes-IsByte,
}
use lisk_migrator.Utils.Block.{
  Page, BlockHeader, Transaction, on_data, page_loop, id_key, get_block_public_key_set,
  get_transaction_public_key_set,
}
use lisk_migrator.Utils.Block.Paging.{
  IsSteppable, last_key_of, next_of, increment_one-next_of, keep_rest, keep-IsSteppable,
  keep-IsAscending, at_most-next_of, at_most_trans, in_range-low, in_range_raise, last_key_of_all,
}
use lisk_migrator.Utils.Block.Paging.Step.{HasNext}

-- The set after the public keys of the entries are added in their order.
abbrev pub add_keys : (Bytes → Bytes) → List Entry → List Text → List Text
add_keys found [] set = set
add_keys found ((_, value) ∷ es) set = add_keys found es (add same (hex (found value)) set)

add_keys-take :
    (found : Bytes → Bytes) (n : ℕ) (es : List Entry) (set : List Text)
    → add_keys found (drop n es) (add_keys found (take n es) set) ≡ add_keys found es set
add_keys-take found zero es set = refl
add_keys-take found (suc n) [] set = refl
add_keys-take found (suc n) (e ∷ es) set = add_keys-take found n es _

abbrev has_any : List Entry → Bool
has_any [] = false
has_any (e ∷ es) = true

module _ (public_key : Bytes → Result Bytes) (found : Bytes → Bytes) where
  -- The codec decodes the values, and reads `found` from them.
  abbrev pub Decodes : List Entry → Type 0
  Decodes es = All (λ e. public_key e.1 ≡ ok (found e.1)) es

  on_data_lem :
      (es : List Entry) (page : Page)
      → Decodes es
      → on_data public_key es page
        ≡ ok (record {
          exist = page.exist || has_any es;
          result = add_keys found es page.result;
          last_key = last_key_of page.last_key es;
        })
  unfolding on_data
  on_data_lem [] page h = ground arith
  on_data_lem (e ∷ es) page h = rw h.0 (on_data_lem es _ h.1 ∙ ground arith)

  take-Decodes : (n : ℕ) (es : List Entry) → Decodes es → Decodes (take n es)
  take-Decodes zero es h = tt
  take-Decodes (suc n) [] h = tt
  take-Decodes (suc n) (e ∷ es) h = (h.0, take-Decodes n es h.1)

length-drop-le : (n : ℕ) (es : List Entry) → length (drop n es) ≤ length es
length-drop-le zero es = omega arith
length-drop-le (suc n) [] = omega arith
length-drop-le (suc n) (e ∷ es) = omega (arith, length-drop-le n es)

Entries-cases : (es : List Entry) → (es ≡ []) ⊎ ((x : Entry) × (xs : List Entry) × (es ≡ x ∷ xs))
Entries-cases [] = inl refl
Entries-cases (x ∷ xs) = inr (x, xs, refl)

module _ (db : Db) (entries : List Entry) (holds : Holds db entries)
    (public_key : Bytes → Result Bytes) (found : Bytes → Bytes) (high : Bytes) (m : ℕ) where
  abbrev from : Bytes → List Entry
  from low = in_range low high entries

  page_loop_end :
      (fuel : ℕ) (low : Bytes) (set : List Text)
      → from low ≡ []
      → page_loop (suc fuel) db public_key high (suc m) low set ≡ ok set
  unfolding page_loop
  page_loop_end fuel low set e = rw (holds.read low high (suc m), e) (unfold on_data in refl)

  -- The end of the page, and the key that the next one starts from.
  module _ (low : Bytes) (x : Entry) (xs : List Entry) (e : from low ≡ x ∷ xs)
      (s : IsSteppable (from low)) where
    abbrev page_end : Bytes
    page_end = last_key_of x.0 (take m xs)

    steppable : IsSteppable (x ∷ xs)
    steppable = rw e at s

    page_end-HasNext : HasNext page_end
    page_end-HasNext = last_key_of_all HasNext x m xs steppable.steps

    from-next_keep :
        from (next_of page_end page_end-HasNext)
        ≡ keep (λ f. at_most (next_of page_end page_end-HasNext) f.0) (from low)
    from-next_keep = in_range_raise low _ high entries (λ k above.
        at_most_trans low _ k
          (at_most_trans low page_end _
            (last_key_of_all (λ k. at_most low k ≡ true) x m xs
              (rw e at (in_range-low low high entries)))
            (at_most-next_of page_end page_end-HasNext))
          above)

    from-next : from (next_of page_end page_end-HasNext) ≡ drop m xs
    from-next =
        from-next_keep
        ∙ rw e (keep_rest x m xs steppable.ascending steppable.apart page_end-HasNext)

    page_loop_step :
        (fuel : ℕ) (set : List Text)
        → Decodes public_key found (from low)
        → page_loop (suc fuel) db public_key high (suc m) low set
          ≡ page_loop fuel db public_key high
              (suc m)
              (next_of page_end page_end-HasNext)
              (add_keys found (x ∷ take m xs) set)
    unfolding page_loop
    page_loop_step fuel set d =
        rw
          (
            holds.read low high (suc m),
            e,
            on_data_lem public_key found (x ∷ take m xs) _
                (take-Decodes public_key found (suc m) (x ∷ xs) (rw e at d)),
          )
          (rw (increment_one-next_of page_end page_end-HasNext, ◌>>=◌))

  -- With fuel for more rounds than there are entries the loop ends, and has added the public key of
  -- each entry of the range in order.
  page_loop_lem :
      (fuel : ℕ) (low : Bytes) (set : List Text)
      → IsSteppable (from low)
      → Decodes public_key found (from low)
      → length (from low) < fuel
      → page_loop fuel db public_key high (suc m) low set ≡ ok (add_keys found (from low) set)
  page_loop_lem zero low set s d h = absurd (omega arith)
  page_loop_lem (suc fuel) low set s d h = elim (Entries-cases (from low)) [
    | inl e ↦ page_loop_end fuel low set e ∙ rw e refl
    | inr (x, xs, e) ↦
        let next = next_of (page_end low x xs e s) (page_end-HasNext low x xs e s) in
        let rest = from-next low x xs e s in
        page_loop_step low x xs e s fuel set d
        ∙ page_loop_lem fuel next (add_keys found (x ∷ take m xs) set)
            (rw (from-next_keep low x xs e s) (keep-IsSteppable _ (from low) s))
            (rw (from-next_keep low x xs e s) (keep-All _ _ (from low) d))
            (omega (arith, ap length rest, ap length e, length-drop-le m xs))
        ∙ rw (rest, e) (ap ok (add_keys-take found (suc m) (x ∷ xs) set))
  ]

-- The range of all keys of a kind.
abbrev pub all_ids : Text → List Entry → List Entry
all_ids prefix = in_range (id_key prefix (replicate 32 0)) (id_key prefix (replicate 32 255))

all_ids-IsSteppable :
    (prefix : Text) (entries : List Entry)
    → are_bytes prefix ≡ true
    → IsAscending entries
    → HaveIdKeys prefix (all_ids prefix entries)
    → IsSteppable (all_ids prefix entries)
all_ids-IsSteppable prefix entries h a ids =
    HaveIdKeys-IsSteppable prefix (are_bytes-IsByte prefix h) (all_ids prefix entries) ids
      (keep-IsAscending _ entries a)

-- With a page size of at least 1, a database that holds the entries, those of blocks under the keys of
-- IDs of 32 bytes and with values that the codec decodes to headers with the generators' keys
-- `found`, and fuel for one round more than there are blocks, `getBlockPublicKeySet` returns the
-- keys of all blocks as hex texts, as a set in the order of their first appearance.
pub get_block_public_key_set_lem :
    (fuel : ℕ) (db : Db) (decode : Bytes → Result BlockHeader) (m : ℕ) (entries : List Entry)
    (found : Bytes → Bytes)
    → Holds db entries
    → HaveIdKeys db_key_blocks_id (all_ids db_key_blocks_id entries)
    → Decodes
        (λ value. decode value >>= λ header. ok header.generator_public_key)
        found
        (all_ids db_key_blocks_id entries)
    → length (all_ids db_key_blocks_id entries) < fuel
    → get_block_public_key_set fuel db decode (suc m)
      ≡ ok (add_keys found (all_ids db_key_blocks_id entries) [])
unfolding get_block_public_key_set
get_block_public_key_set_lem fuel db decode m entries found holds ids decodes enough =
    page_loop_lem db entries holds _ found _ m fuel _ []
      (all_ids-IsSteppable db_key_blocks_id entries refl holds.ascending ids) decodes enough

-- With a page size of at least 1, a database that holds the entries, those of transactions under the
-- keys of IDs of 32 bytes and with values that the codec decodes to transactions with the senders'
-- keys `found`, and fuel for one round more than there are transactions, `getTransactionPublicKeySet`
-- returns the keys of all senders as hex texts, as a set in the order of their first appearance.
pub get_transaction_public_key_set_lem :
    (fuel : ℕ) (db : Db) (decode : Bytes → Result Transaction) (m : ℕ) (entries : List Entry)
    (found : Bytes → Bytes)
    → Holds db entries
    → HaveIdKeys db_key_transactions_id (all_ids db_key_transactions_id entries)
    → Decodes
        (λ value. decode value >>= λ tx. ok tx.sender_public_key)
        found
        (all_ids db_key_transactions_id entries)
    → length (all_ids db_key_transactions_id entries) < fuel
    → get_transaction_public_key_set fuel db decode (suc m)
      ≡ ok (add_keys found (all_ids db_key_transactions_id entries) [])
unfolding get_transaction_public_key_set
get_transaction_public_key_set_lem fuel db decode m entries found holds ids decodes enough =
    page_loop_lem db entries holds _ found _ m fuel _ []
      (all_ids-IsSteppable db_key_transactions_id entries refl holds.ascending ids) decodes enough
