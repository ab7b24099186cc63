-- ===== src/Lib.antt =====
-- Lisk Migrator: from a snapshot of Lisk Core v3 to the genesis assets and the configuration of v4.
--
-- The program reads a database snapshot at a height. src/createAsset.ts builds one genesis asset for each
-- module of Lisk Core v4 from it, with src/assets/*.ts for the entries and src/utils/block.ts,
-- src/utils/transaction.ts and src/utils/number.ts for the keys and pages of the database.
-- src/utils/config.ts turns the configuration of v3 into one of v4, src/utils/node.ts asks for the start
-- command of v4 and starts it, src/utils/chain.ts waits for the chain to reach a height, and src/index.ts
-- is the command that calls them all and leaves the user with the commands of src/utils/commands.ts.
--
-- The files, and the code that each is about:
--   Common, Encoding    lists, tests, results, sorting by a comparator (Array.prototype.sort is stable),
--                       dictionaries and the text encodings of Buffer and BigInt; of the language, not
--                       of the program
--   Types, Constants    src/types.ts and src/constants.ts
--   Crypto, Database,   the cryptography library, the database and the codec: not code of the program,
--   Codec               so records of functions that the definitions take as parameters
--   Assets              src/assets/auth.ts, interoperability.ts, legacy.ts, token.ts and pos.ts; below each,
--                       Laws, Bans and Keys prove its properties
--   CreateAsset         src/createAsset.ts: init, with the module variables as state (Monad), its loop
--                       (Collect), the supply (Supply), what is locked and staked (Stakes), and the order
--                       and the addresses of its result (Order, Unique, Arranged)
--   Utils               src/utils/block.ts (getTransactionPublicKeySet of transaction.ts stands with it, as
--                       its loop is the same), transaction.ts, number.ts, config.ts, node.ts, chain.ts,
--                       commands.ts, network.ts, exception.ts, path.ts, fs.ts, genesis_block.ts and
--                       download.ts
--   Command             src/index.ts: the checks before the migration, the wait for the shutdown of v3 and the
--                       commands left after a failure; Run is the whole of run, with its calls (Interface),
--                       its state and effects (Monad) and its phases (Phases), and Stages is what it
--                       refines (Rules, Follows, Starts, Refines), with what follows for the data of v3
--                       (Safety), for the commands that are left (Recovers), on another network (Unknown) and
--                       where no call fails (Makes, Favourable, Exports, Completes)
--   Schemas             src/schemas.ts
--   Client, Events      src/client.ts and src/events.ts
--   Tests               runs on small inputs
--
-- Function names are those of the code in snake case. A Buffer's contents and a text are lists of
-- natural numbers, bytes or code units. A bigint or number that the schemas make unsigned is a natural;
-- where the code can meet a negative number, as in formatInt or the time left, it is an integer.
-- A Buffer carries its identity only where it is the key of a Map, in the addresses of accounts and of
-- delegates' vote weights. Exceptions are values of Result. Asynchronous calls are made one after the
-- other, as they are awaited. totalLSKSupply and legacyReserveAmount are state that init is given and
-- returns, with what was written before a throw.
--
-- The paging loops run on fuel, one unit for each page and one for the last, empty one; the theorems on
-- them show that one more than the number of entries is enough. Sorts of module names by localeCompare
-- are sorts by code units, as the names are lower-case letters. decimal counts its digits with fuel n + 1.
-- split, the regular expressions of node.ts and the retry loop are structural recursions.
--
-- run is a sequence of actions on a state: the module variables of src/index.ts, of src/utils/chain.ts,
-- of src/utils/genesis_block.ts and of src/utils/node.ts, the variables of the genesis assets, and the
-- list of the lasting effects, in their order. An action returns, throws, ends the process by an error that
-- nothing catches, or waits without an end, which is how a chain that never reaches the height shows. The
-- error of an event's handler is of the third kind. The calls of the system, of the node, of npm and of the
-- user's terminal are fields of a record; what they change outside is an effect. Of the errors that they
-- throw only that of npm has a code that is read: its exit code.
--
-- Files are held by their names in one directory (src/utils/genesis_block.ts, src/utils/download.ts), or as
-- a tree (copyDir of src/utils/fs.ts, where the source does not lie in the destination, nor the
-- destination in the source). The data directory of v3, its backup and the legacy database are three
-- places of such trees (Utils/Node/Data), of which the last is moved with the first where it lies in it,
-- and made there again by the copy; that the backup does not lie in it, is assumed. What the unpacking of a
-- tarball has written when the call returns, and its error, are what a parameter says. SHA-256, tarballs,
-- the server and JSON.stringify are parameters. The paths are POSIX paths.
--
-- Not modelled: the console and the progress bar, the single calls of node's fs, child_process and net
-- modules, and the interleaving of the capture of the forging status with the rest of a run: Events has
-- the handler of one event, and a run has the subscription as an effect.
pub mod Common
pub mod Encoding
pub mod Types
pub mod Constants
pub mod Crypto
pub mod Database
pub mod Codec
pub mod Assets
pub mod CreateAsset
pub mod Utils
pub mod Tests
pub mod Command
pub mod Schemas
pub mod Client
pub mod Events
