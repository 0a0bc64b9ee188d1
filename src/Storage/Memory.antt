-- ===== src/Storage/Memory.antt =====
-- adapters/storage_memory.go: blocks in a map, under their hashes.
use xenium.Prelude.{Option, []}
use xenium.Prelude.Bytes.{Bytes, bytes_key}
use xenium.Dict.{Dict, lookup, insert}
use xenium.Domain.{Block}

pub record MemoryBlockStore : Type 0 where
  pub blocks : Dict Bytes Block

unfoldable pub new_memory_block_store : MemoryBlockStore
new_memory_block_store = record { blocks = [] }

unfoldable pub get : Bytes → MemoryBlockStore → Option Block
get hash store = lookup hash store.blocks

unfoldable pub put : Block → MemoryBlockStore → MemoryBlockStore
put block store = record { blocks = insert block.hash block store.blocks }
