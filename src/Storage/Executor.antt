-- ===== src/Storage/Executor.antt =====
-- What the storage tier is built on: the errors of kv-service/server/src/error.rs, the trait
-- `IOExecutor` of kv-service/server/src/io_executor/mod.rs and the calls of the metadata service
-- (kv-service/server/src/metadata.rs), each with what the storage tier relies on.
use context_store.Prelude.{
  ℕ, ◌<◌, ◌^◌, Bool, true, false, Option, none, some, List, ◌++◌, eq_bytes, if◌then◌else◌, ◌≡◌,
}
use context_store.Prelude.Int.{ℤ}
use context_store.Prelude.Results.{Result, ok, err}
use context_store.Metadata.{BlockMeta}
use context_store.Metadata.Redis.{is_some}
use context_store.Router.Files.{bin}
use context_store.Storage.Paths.{file_name}

-- The messages are left out; `io` says whether the file was not found. `panicked` is a thread that
-- panics, which is no error of the source.
pub data KvError : Type 0 where
  config not_found already_exists metadata invalid_argument internal panicked : KvError
  io : Bool → KvError

-- `touches p q`: a write to the file `p` may change what is at `q`, which is that file under any of its
-- names, or the temporary file next to it, whose name does not end in `.bin`.
pub record Executor : Type 1 where
  pub Files : Type 0
  pub contents : List ℕ → Files → Option (List ℕ)
  pub touches : List ℕ → List ℕ → Bool
  pub read_file : List ℕ → Files → Result KvError (List ℕ) × Files
  pub write_file : List ℕ → List ℕ → Files → Result KvError (Unit {0}) × Files
  pub delete_file : List ℕ → Files → Result KvError (Unit {0}) × Files
  pub file_exists : List ℕ → Files → Bool
  pub touches_lem :
      (p q name : List ℕ)
      → file_name q ≡ name ++ bin
      → touches p q ≡ true
      → file_name p ≡ file_name q
  pub read_ok : (p b : List ℕ) (s : Files) → (read_file p s).0 ≡ ok b → contents p s ≡ some b
  pub read_absent :
      (p : List ℕ) (s : Files) → contents p s ≡ none → (read_file p s).0 ≡ err (io true)
  pub contents_read : (p q : List ℕ) (s : Files) → contents q (read_file p s).1 ≡ contents q s
  pub write_ok :
      (p b : List ℕ) (s : Files)
      → (write_file p b s).0 ≡ ok tt
      → contents p (write_file p b s).1 ≡ some b
  pub contents_write :
      (p b q : List ℕ) (s : Files)
      → touches p q ≡ false
      → contents q (write_file p b s).1 ≡ contents q s
  pub delete_ok :
      (p : List ℕ) (s : Files) → (delete_file p s).0 ≡ ok tt → contents p (delete_file p s).1 ≡ none
  pub contents_delete :
      (p q : List ℕ) (s : Files)
      → touches p q ≡ false
      → contents q (delete_file p s).1 ≡ contents q s
  pub file_exists_lem : (p : List ℕ) (s : Files) → file_exists p s ≡ is_some (contents p s)

-- `visible key s` is the version of the key that a read which is answered reports. Where a reply is
-- lost, the command of a call that fails may have been carried out.
pub record MetadataService : Type 1 where
  pub State : Type 0
  pub visible : List ℕ → State → Option BlockMeta
  pub get_block : List ℕ → State → Result KvError (Option BlockMeta) × State
  pub replace_block : List ℕ → BlockMeta → ℤ → State → Result KvError (Option BlockMeta) × State
  pub put_block_if_absent : List ℕ → BlockMeta → State → Result KvError Bool × State
  pub retire_block : List ℕ → ℤ → State → Result KvError (Option BlockMeta) × State
  pub retire_block_if_matches : List ℕ → BlockMeta → ℤ → State → Result KvError Bool × State
  pub delete_block_if_matches : List ℕ → BlockMeta → State → Result KvError Bool × State
  pub next_generation : List ℕ → State → Result KvError ℕ × State
  pub get_block_ok :
      (k : List ℕ) (m : Option BlockMeta) (s : State) → (get_block k s).0 ≡ ok m → visible k s ≡ m
  pub visible-get_block : (k j : List ℕ) (s : State) → visible j (get_block k s).1 ≡ visible j s
  pub visible-replace_block :
      (k j : List ℕ) (m : BlockMeta) (t : ℤ) (s : State) (old : Option BlockMeta)
      → (replace_block k m t s).0 ≡ ok old
      → visible j (replace_block k m t s).1 ≡ (if eq_bytes k j then some m else visible j s)
  pub visible-put_block_if_absent :
      (k j : List ℕ) (m : BlockMeta) (s : State)
      → (put_block_if_absent k m s).0 ≡ ok true
      → visible j (put_block_if_absent k m s).1 ≡ (if eq_bytes k j then some m else visible j s)
  pub visible-next_generation :
      (k j : List ℕ) (s : State) → visible j (next_generation k s).1 ≡ visible j s
  pub next_generation_u64 :
      (k : List ℕ) (g : ℕ) (s : State) → (next_generation k s).0 ≡ ok g → g < 2 ^ 64
  pub next_generation_ok :
      (k : List ℕ) (g : ℕ) (m : BlockMeta) (s : State)
      → visible k s ≡ some m
      → m.object_generation < 2 ^ 53
      → (next_generation k s).0 ≡ ok g
      → m.object_generation < g
