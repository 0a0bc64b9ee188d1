-- ===== src/Storage.antt =====
-- adapters/storage_file.go: the store that keeps blocks in a file of lines and an index of heights. The calls of
-- Go's os, path/filepath, bufio and encoding/json packages are a parameter.
pub mod Lines
pub mod Disk
pub mod Synced
pub mod Loading
pub mod Restart
pub mod Snapshots
pub mod Memory
pub mod Linear
use xenium.Prelude.{
  ℕ, zero, suc, ◌+◌, ◌-◌, Option, none, some, List, [], ◌∷◌, ◌++◌, ltb, leb, nat_beq, nat_eq,
  if◌then◌else◌, ◌==◌,
}
use xenium.Prelude.Bytes.{Bytes, str, bytes_key}
use xenium.Prelude.Int.{word, add_word}
use xenium.Dict.{Dict, lookup, insert, values}
use xenium.Domain.{
  Block, Result, Checked, ok, err, ◌>>=◌, data_dir_required, missing_height, missing_hash,
}
use xenium.Ports.{BlockStore}

-- What is in `index.json`.
pub record BlockIndex : Type 0 where
  pub height_to_hash : Dict ℕ Bytes
  pub tip_hash : Bytes
  pub tip_height : ℕ

-- What is in the file of a snapshot.
pub record SnapshotFile : Type 0 where
  pub epoch : ℕ
  pub state_root : Bytes
  pub validator_set : Dict Bytes ℕ

-- The calls of the os package on disks `S`. A read of a missing file is `none`.
pub record Os (S : Type 0) : Type 0 where
  pub join : Bytes → Bytes → Bytes
  pub mkdir_all : Bytes → S → Checked × S
  pub read_file : Bytes → S → Option (Result Bytes)
  -- `os.Open` and a `bufio.Scanner`: the lines that it yields, and the error that it ends with.
  pub scan_file : Bytes → S → Option (Result (List Bytes × Checked))
  -- `os.OpenFile` with O_CREATE, O_APPEND and O_WRONLY, and `Write` on what it opens.
  pub open_append : Bytes → S → Checked × S
  pub write_open : Bytes → Bytes → S → Checked × S
  pub write_file : Bytes → Bytes → S → Checked × S
  pub rename : Bytes → Bytes → S → Checked × S
  -- `os.ReadDir`: the names in a directory. A directory or a file that is not there is `none`.
  pub read_dir : Bytes → S → Option (Result (List Bytes))
  pub stat : Bytes → S → Option Checked

-- The calls of encoding/json.
pub record Json : Type 0 where
  pub marshal_block : Block → Result Bytes
  pub unmarshal_block : Bytes → Result Block
  pub marshal_index : BlockIndex → Result Bytes
  pub unmarshal_index : Bytes → Result BlockIndex
  pub marshal_snapshot : SnapshotFile → Result Bytes
  pub unmarshal_snapshot : Bytes → Result SnapshotFile

pub record FileBlockStore : Type 0 where
  pub dir : Bytes
  pub blocks_path : Bytes
  pub index_path : Bytes
  pub blocks : Dict Bytes Block
  pub height_to_hash : Dict ℕ Bytes
  pub tip_hash : Bytes
  pub tip_height : ℕ

abbrev pub newline : ℕ
newline = 10

-- A call that may end with an error, and the disk behind it.
abbrev pub and_then {ℓ} :
    {S : Type 0} {X : Type ℓ} → Checked × S → (S → Result X × S) → Result X × S
and_then (err e, s) next = (err e, s)
and_then (ok _, s) next = next s

unfoldable pub get_block_by_hash : Bytes → FileBlockStore → Option Block
get_block_by_hash hash store = lookup hash store.blocks

unfoldable pub get_block_by_height : ℕ → FileBlockStore → Option Block
get_block_by_height height store = elim (lookup height store.height_to_hash) [
  | none ↦ none
  | some hash ↦ lookup hash store.blocks
]

unfoldable pub get_tip : FileBlockStore → Option Block
get_tip store = if store.tip_hash == [] then none else lookup store.tip_hash store.blocks

-- The loop of `GetRange` from height `h` on, `rounds` times.
unfoldable pub range_from : ℕ → ℕ → FileBlockStore → Result (List Block)
range_from zero h store = ok []
range_from (suc rounds) h store = elim (lookup h store.height_to_hash) [
  | none ↦ err (missing_height h)
  | some hash ↦ elim (lookup hash store.blocks) [
    | none ↦ err missing_hash
    | some b ↦ range_from rounds (h + 1) store >>= λ bs. ok (b ∷ bs)
  ]
]

-- At the largest `uint64`, `h <= endHeight` always holds, and the loop goes on at 0; `none` is a call that
-- never returns.
unfoldable pub get_range : ℕ → ℕ → FileBlockStore → Option (Result (List Block))
get_range first last store =
    if ltb last first then some (ok []) else elim (range_from (last - first + 1) first store) [
      | err e ↦ some (err e)
      | ok bs ↦
          if nat_beq last (word - 1)
          then elim (range_from first 0 store) [ err e ↦ some (err e) | ok _ ↦ none ]
          else some (ok bs)
    ]

-- The blocks of some lines, written under their hashes.
unfoldable pub add_lines : Json → List Bytes → Dict Bytes Block → Result (Dict Bytes Block)
add_lines json [] blocks = ok blocks
add_lines json (line ∷ lines) blocks =
    json.unmarshal_block line >>= λ b. add_lines json lines (insert b.hash b blocks)

-- The loop of `rebuildIndex` over the blocks.
unfoldable pub index_blocks : List Block → BlockIndex → BlockIndex
index_blocks [] idx = idx
index_blocks (b ∷ bs) idx = index_blocks bs (
    if leb idx.tip_height b.index
    then record {
      height_to_hash = insert b.index b.hash idx.height_to_hash;
      tip_hash = b.hash;
      tip_height = b.index;
    }
    else record idx { height_to_hash = insert b.index b.hash idx.height_to_hash })

-- The maps with a block that was appended.
unfoldable pub note_block : Block → FileBlockStore → FileBlockStore
note_block b store =
    let noted = record store {
      blocks = insert b.hash b store.blocks;
      height_to_hash = insert b.index b.hash store.height_to_hash;
    } in
    if leb store.tip_height b.index
    then record noted { tip_height = b.index; tip_hash = b.hash }
    else noted

-- `&FileBlockStore{...}` of `NewFileBlockStore`
abbrev pub empty_store : {S : Type 0} → Os S → Bytes → FileBlockStore
empty_store os dir = record {
  dir = dir;
  blocks_path = os.join dir (str "blocks.jsonl");
  index_path = os.join dir (str "index.json");
  blocks = [];
  height_to_hash = [];
  tip_hash = [];
  tip_height = 0;
}

-- A file is written under another name first, and then renamed.
unfoldable pub replace_file : {S : Type 0} → Os S → Bytes → Bytes → S → Checked × S
replace_file os path text s =
    let tmp = path ++ str ".tmp" in and_then (os.write_file tmp text s) (os.rename tmp path)

module _ {S : Type 0} (os : Os S) (json : Json) where
  unfoldable pub write_index : FileBlockStore → S → Checked × S
  write_index store s =
      elim (json.marshal_index (record {
        height_to_hash = store.height_to_hash;
        tip_hash = store.tip_hash;
        tip_height = store.tip_height;
      })) [ err e ↦ (err e, s) | ok text ↦ replace_file os store.index_path text s ]

  unfoldable pub append_block : Block → FileBlockStore → S → Checked × S
  append_block b store s = and_then (os.open_append store.blocks_path s) (λ s1.
      elim (json.marshal_block b) [
        | err e ↦ (err e, s1)
        | ok text ↦ os.write_open store.blocks_path (text ++ newline ∷ []) s1
      ])

  unfoldable pub save_block : Block → FileBlockStore × S → Checked × (FileBlockStore × S)
  save_block b (store, s) =
      let (appended, s1) = append_block b store s in
      elim appended [
        | err e ↦ (err e, (store, s1))
        | ok _ ↦
            let noted = note_block b store in
            let (written, s2) = write_index noted s1 in (written, (noted, s2))
      ]

  unfoldable pub load_index : FileBlockStore → S → Result FileBlockStore
  load_index store s = elim (os.read_file store.index_path s) [
    | none ↦ ok store
    | some (err e) ↦ err e
    | some (ok text) ↦ json.unmarshal_index text >>= λ idx. ok (record store {
      height_to_hash = idx.height_to_hash;
      tip_hash = idx.tip_hash;
      tip_height = idx.tip_height;
    })
  ]

  unfoldable pub load_blocks : FileBlockStore → S → Result FileBlockStore
  load_blocks store s = elim (os.scan_file store.blocks_path s) [
    | none ↦ ok store
    | some (err e) ↦ err e
    | some (ok (lines, ended)) ↦ add_lines json lines store.blocks >>= λ blocks.
        ended >>= λ _. ok (record store { blocks = blocks })
  ]

  unfoldable pub rebuild_index : FileBlockStore → S → Result FileBlockStore × S
  rebuild_index store s = elim store.blocks [
    | [] ↦ (ok store, s)
    | _ ∷ _ ↦
        let idx =
          index_blocks (values store.blocks)
            (record { height_to_hash = []; tip_hash = []; tip_height = 0 }) in
        let rebuilt = record store {
          height_to_hash = idx.height_to_hash;
          tip_hash = idx.tip_hash;
          tip_height = idx.tip_height;
        } in
        and_then (write_index rebuilt s) (λ s1. (ok rebuilt, s1))
  ]

  unfoldable pub load : FileBlockStore → S → Result FileBlockStore × S
  load store s = elim (load_index store s >>= λ indexed. load_blocks indexed s) [
    | err e ↦ (err e, s)
    | ok loaded ↦ elim loaded.height_to_hash [
      | [] ↦ rebuild_index loaded s
      | _ ∷ _ ↦ (ok loaded, s)
    ]
  ]

  unfoldable pub new_file_block_store : Bytes → S → Result FileBlockStore × S
  new_file_block_store dir s =
      if dir == []
      then (err data_dir_required, s)
      else and_then (os.mkdir_all dir s) (load (empty_store os dir))

  -- The store as the engine uses it.
  unfoldable pub file_block_store : BlockStore (FileBlockStore × S)
  file_block_store = record {
    save_block = save_block;
    get_block_by_hash = λ hash (store, s). get_block_by_hash hash store;
    get_block_by_height = λ height (store, s). get_block_by_height height store;
    get_tip = λ (store, s). get_tip store;
    get_range = λ first last (store, s). get_range first last store;
  }
