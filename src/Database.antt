-- ===== src/Database.antt =====
-- The database of the snapshot (@liskhq/lisk-db), which is not the migrator's code: a parameter with
-- the two calls that are made of it.
use lisk_migrator.Common.{
  ℕ, ◌≡◌, Bool, true, ◌&&◌, List, [], ◌∷◌, Option, some, Bytes, Result, ok, Ordering, take, keep,
}
use lisk_migrator.Common.Predicates.{All}
use lisk_migrator.Common.Sort.{compare_bytes}

-- The options of `createReadStream`.
pub record ReadOptions : Type 0 where
  pub gte : Bytes
  pub lte : Bytes
  pub limit : Option ℕ

abbrev pub Entry : Type 0
Entry = Bytes × Bytes

pub record Db : Type 0 where
  pub get : Bytes → Result Bytes
  -- The 'data' events of the stream in their order, or its 'error' event.
  pub create_read_stream : ReadOptions → Result (List Entry)

abbrev pub at_most : Bytes → Bytes → Bool
at_most a b = elim (compare_bytes a b) [ Ordering.gt ↦ Bool.false | _ ↦ true ]

abbrev pub in_range : Bytes → Bytes → List Entry → List Entry
in_range low high = keep (λ e. at_most low e.0 && at_most e.0 high)

abbrev pub IsAscending : List Entry → Type 0
IsAscending [] = Unit
IsAscending (e ∷ es) = All (λ f. compare_bytes e.0 f.0 ≡ Ordering.lt) es × IsAscending es

-- What the documentation of `createReadStream` says: the entries of the range in the order of their
-- keys, as many as the limit allows.
pub record Holds (db : Db) (entries : List Entry) : Type 0 where
  pub ascending : IsAscending entries
  pub read :
      (low high : Bytes) (n : ℕ)
      → db.create_read_stream (record { gte = low; lte = high; limit = some n })
        ≡ ok (take n (in_range low high entries))
