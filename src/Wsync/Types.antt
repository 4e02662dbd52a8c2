-- ===== src/Wsync/Types.antt =====
-- wsync/types.go: the sync operations, and the hash of one block.
use wharf.Base.{ℕ, List}

-- `OpBlockRange` copies blocks of an old file, and `OpData` pastes fresh bytes. Each constructor
-- holds the fields of `Operation` that its type uses.
pub data Operation : Type 0 where
  op_block_range : ℕ → ℕ → ℕ → Operation
  op_data : List ℕ → Operation

pub record BlockHash : Type 0 where
  pub file_index : ℕ
  pub block_index : ℕ
  pub weak_hash : ℕ
  pub short_size : ℕ
  pub strong_hash : List ℕ
