-- ===== src/Metadata/Steps.antt =====
-- What may happen to the store of the metadata service between two requests of one client: the
-- operations of Metadata/Backend that write and the commands of Metadata/Commands, of any client, in
-- any order.
use context_store.Prelude.{ℕ, ◌^◌, ◌<◌, some, List, ◌≡◌}
use context_store.Prelude.Int.{ℤ}
use context_store.Metadata.{BlockMeta}
use context_store.Metadata.Redis.{Redis, Json}
use context_store.Metadata.Backend.{
  put_block, put_block_if_absent, replace_block, retire_block, retire_block_if_matches,
  delete_block, delete_block_if_matches, next_generation, take_due_gc_tasks,
}
use context_store.Metadata.Commands.{Command, run_command}

-- The operations that are one command or one script, with generations below 2 ^ 53, the numbers that
-- Lua counts.
pub data Operation (J : Json) (R : Redis J.Doc) (prefix : List ℕ) : R.Store → R.Store → Type 0 where
  putting :
      (key : List ℕ) (meta : BlockMeta) (s : R.Store)
      → Operation J R prefix s (put_block J R prefix key meta s)
  putting_if_absent :
      (key : List ℕ) (meta : BlockMeta) (s : R.Store)
      → Operation J R prefix s (put_block_if_absent J R prefix key meta s).1
  replacing :
      (key : List ℕ) (meta : BlockMeta) (not_before : ℤ) (s : R.Store)
      → Operation J R prefix s (replace_block J R prefix key meta not_before s).1
  retiring :
      (key : List ℕ) (not_before : ℤ) (s : R.Store)
      → Operation J R prefix s (retire_block J R prefix key not_before s).1
  retiring_if_matches :
      (key : List ℕ) (expected : BlockMeta) (not_before : ℤ) (s : R.Store)
      → Operation J R prefix s (retire_block_if_matches J R prefix key expected not_before s).1
  deleting : (key : List ℕ) (s : R.Store) → Operation J R prefix s (delete_block J R prefix key s)
  deleting_if_matches :
      (key : List ℕ) (expected : BlockMeta) (s : R.Store)
      → Operation J R prefix s (delete_block_if_matches J R prefix key expected s).1
  counting :
      (key : List ℕ) (g : ℕ) (s : R.Store)
      → (next_generation J R prefix key s).0 ≡ some g
      → g < 2 ^ 53
      → Operation J R prefix s (next_generation J R prefix key s).1
  taking :
      (now : ℤ) (limit lease_seconds : ℕ) (s : R.Store)
      → Operation J R prefix s (take_due_gc_tasks J R prefix now limit lease_seconds s).1

-- One of them, or one command of a call that has several.
pub data Step (J : Json) (R : Redis J.Doc) (prefix : List ℕ) : R.Store → R.Store → Type 0 where
  operating : {s s' : R.Store} → Operation J R prefix s s' → Step J R prefix s s'
  sending :
      (command : Command J.Doc) (s : R.Store) → Step J R prefix s (run_command J R prefix command s)

pub data Reach (J : Json) (R : Redis J.Doc) (prefix : List ℕ) : R.Store → R.Store → Type 0 where
  done : (s : R.Store) → Reach J R prefix s s
  next : {s s₁ s₂ : R.Store} → Step J R prefix s s₁ → Reach J R prefix s₁ s₂ → Reach J R prefix s s₂
