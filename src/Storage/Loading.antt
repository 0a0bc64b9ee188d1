-- ===== src/Storage/Loading.antt =====
-- What `load` of adapters/storage_file.go finds in the files of a store.
use xenium.Prelude.{
  ℕ, zero, suc, ◌+◌, ◌-◌, ◌≡◌, refl, sym, ap, ◌∙◌, arith, Option, none, some, List, [], ◌∷◌, map,
  get_or, All, nat_eq, inl, inr, Option-cases, List-cases,
}
use xenium.Prelude.Bytes.{Bytes, str, bytes_key}
use xenium.Dict.{Dict, lookup, insert}
use xenium.Domain.{Block, Result, ok, err, missing_height, missing_hash, ◌>>=◌}
use xenium.Storage.{
  Os, Json, empty_store, BlockIndex, FileBlockStore, add_lines, load_index, load_blocks,
  rebuild_index, load, get_block_by_hash, get_block_by_height, get_tip, range_from, get_range,
}
use xenium.Storage.Lines.{unlines, IsLine}
use xenium.Storage.Disk.{IsStorable, IsReadable, IsJson, SameIndex, HasTexts, index_of}
use xenium.Storage.Synced.{line_of, line_of-eq, blocks_of, IsIndexed, fresh, indexed, IsSynced}

-- Two stores that answer every question alike.
pub record IsAlike (store other : FileBlockStore) : Type 0 where
  pub by_hash : (hash : Bytes) → get_block_by_hash hash other ≡ get_block_by_hash hash store
  pub by_height : (h : ℕ) → get_block_by_height h other ≡ get_block_by_height h store
  pub tip : get_tip other ≡ get_tip store
  pub range : (first last : ℕ) → get_range first last other ≡ get_range first last store

-- A round of the loop of `GetRange`, by what is found of the height and by the rounds behind it.
abbrev one_height : ℕ → Option Bytes → Dict Bytes Block → Result (List Block) → Result (List Block)
one_height h found blocks rest = elim found [
  | none ↦ err (missing_height h)
  | some hash ↦ elim (lookup hash blocks) [
    | none ↦ err missing_hash
    | some b ↦ rest >>= λ bs. ok (b ∷ bs)
  ]
]

module _ (store other : FileBlockStore) (blocks : other.blocks ≡ store.blocks)
    (heights : (h : ℕ) → lookup h other.height_to_hash ≡ lookup h store.height_to_hash) where
  range_from-same : (rounds h : ℕ) → range_from rounds h other ≡ range_from rounds h store
  unfolding range_from
  range_from-same zero h = refl
  range_from-same (suc rounds) h =
      ap (λ o. one_height h o other.blocks (range_from rounds (h + 1) other)) (heights h)
      ∙ ap (λ d. one_height h (lookup h store.height_to_hash) d (range_from rounds (h + 1) other))
          blocks
      ∙ ap (one_height h (lookup h store.height_to_hash) store.blocks)
          (range_from-same rounds (h + 1))

  alike : other.tip_hash ≡ store.tip_hash → IsAlike store other
  unfolding get_block_by_hash get_block_by_height get_tip get_range
  alike tips = record {
    by_hash = λ hash. ap (lookup hash) blocks;
    by_height = λ h. ground (arith, heights h);
    tip = rw (tips, blocks) refl;
    range = λ first last.
        ground (arith, range_from-same (last - first + 1) first, range_from-same first 0);
  }

add_lines-saved :
    (json : Json) (saved : List Block) (d : Dict Bytes Block)
    → All (IsStorable json) saved
    → add_lines json (map (line_of json) saved) d ≡ ok (blocks_of saved d)
unfolding add_lines blocks_of
add_lines-saved json [] d all = refl
add_lines-saved json (b ∷ bs) d (good, all) =
    let read = good.read in
    let line = line_of-eq json b good in
    rw (line, read) (add_lines-saved json bs (insert b.hash b d) all)

lines-IsLine :
    (json : Json) (saved : List Block)
    → All (IsStorable json) saved
    → All IsLine (map (line_of json) saved)
lines-IsLine json [] all = tt
lines-IsLine json (b ∷ bs) (good, all) =
    (rw (line_of-eq json b good) good.as_line, lines-IsLine json bs all)

no_lines : (json : Json) (saved : List Block) → unlines (map (line_of json) saved) ≡ [] → saved ≡ []
unfolding unlines
no_lines json [] h = refl
no_lines json (b ∷ bs) h = elim (List-cases (line_of json b)) [
  | inl e ↦ absurd (ground arith)
  | inr (x, xs, e) ↦ absurd (ground arith)
]

not_there : (h : ℕ) (hash : Bytes) (saved : List Block) → lookup h [] ≡ some hash → saved ≡ []
unfolding lookup
not_there h hash saved found = absurd (ground arith)

module _ {S : Type 0} (os : Os S) (json : Json) (view : S → Bytes → Option Bytes)
    (dir : Bytes) where
  -- The store of a directory with an index that was read.
  abbrev with_index : BlockIndex → FileBlockStore
  with_index idx = record (empty_store os dir) {
    height_to_hash = idx.height_to_hash;
    tip_hash = idx.tip_hash;
    tip_height = idx.tip_height;
  }

  load_blocks-saved :
      (saved : List Block) (idx : BlockIndex) (s : S)
      → IsReadable os view s
      → All (IsStorable json) saved
      → get_or (view s (os.join dir (str "blocks.jsonl"))) [] ≡ unlines (map (line_of json) saved)
      → load_blocks os json (with_index idx) s
        ≡ ok (record (with_index idx) { blocks = blocks_of saved [] })
  unfolding load_blocks blocks_of
  load_blocks-saved saved idx s readable storable shown =
      let path = os.join dir (str "blocks.jsonl") in
      elim (Option-cases (view s path)) [
        | inl missing ↦
            let none_saved = no_lines json saved (sym shown ∙ ap (λ o. get_or o []) missing) in
            let unscanned = readable.unscanned path missing in
            rw (load_blocks, unscanned, none_saved) refl
        | inr (text, there) ↦
            let content = there ∙ ap some (sym (ap (λ o. get_or o []) there) ∙ shown) in
            let scanned =
              readable.scanned path (map (line_of json) saved) (lines-IsLine json saved storable)
                content in
            rw (load_blocks, scanned, add_lines-saved json saved [] storable) refl
      ]

  load_index-saved :
      (saved : List Block) (store : FileBlockStore) (s : S)
      → IsReadable os view s
      → IsJson json
      → store.index_path ≡ os.join dir (str "index.json")
      → HasTexts (index_of store)
      → IsIndexed os json view dir saved store s
      → (idx : BlockIndex) × SameIndex (index_of store) idx
        × (load_index os json (empty_store os dir) s ≡ ok (with_index idx))
        × ((idx.height_to_hash ≡ []) → saved ≡ [])
  unfolding load_index
  load_index-saved saved store s readable codec path texts
        (fresh none_saved missing heights tips tops) =
      let unread =
        readable.missing (os.join dir (str "index.json")) (ap (view s) (sym path) ∙ missing) in
      (
        record { height_to_hash = []; tip_hash = []; tip_height = 0 },
        record { heights = λ h. ap (lookup h) (sym heights); tips = sym tips; tops = sym tops },
        rw (load_index, unread) refl,
        λ empty. none_saved,
      )
  load_index-saved saved store s readable codec path texts
        (indexed text h hash marshalled shown found) =
      let (idx, unmarshalled, same) = codec.index_back (index_of store) text texts marshalled in
      let read =
        readable.there (os.join dir (str "index.json")) text (ap (view s) (sym path) ∙ shown) in
      (
        idx,
        same,
        rw (load_index, read, unmarshalled) refl,
        λ empty. not_there h hash saved (ap (lookup h) (sym empty) ∙ same.heights h ∙ found),
      )

  pub load-fresh :
      (start indexed_so loaded : FileBlockStore) (s : S)
      → load_index os json start s ≡ ok indexed_so
      → load_blocks os json indexed_so s ≡ ok loaded
      → loaded.height_to_hash ≡ []
      → loaded.blocks ≡ []
      → load os json start s ≡ (ok loaded, s)
  unfolding load rebuild_index
  load-fresh start indexed_so loaded s read scanned no_heights no_blocks = ground arith

  load-indexed :
      (start indexed_so loaded : FileBlockStore) (s : S) (entry : ℕ × Bytes)
      (entries : Dict ℕ Bytes)
      → load_index os json start s ≡ ok indexed_so
      → load_blocks os json indexed_so s ≡ ok loaded
      → loaded.height_to_hash ≡ entry ∷ entries
      → load os json start s ≡ (ok loaded, s)
  unfolding load
  load-indexed start indexed_so loaded s entry entries read scanned heights = ground arith

  -- What is loaded from the files of a store answers like it.
  pub load-synced :
      (saved : List Block) (store : FileBlockStore) (s : S)
      → IsReadable os view s
      → IsJson json
      → IsSynced os json view dir saved store s
      → (other : FileBlockStore) × (load os json (empty_store os dir) s ≡ (ok other, s))
        × IsAlike store other
  load-synced saved store s readable codec sync =
      let (idx, same, read, empty) =
        load_index-saved saved store s readable codec sync.index_at sync.texts sync.index in
      let shown : get_or (view s (os.join dir (str "blocks.jsonl"))) []
          ≡ unlines (map (line_of json) saved) =
        ap (λ p. get_or (view s p) []) (sym sync.blocks_at) ∙ sync.shown in
      let loaded = load_blocks-saved saved idx s readable sync.storable shown in
      let other = record (with_index idx) { blocks = blocks_of saved [] } in
      (
        other,
        elim (List-cases idx.height_to_hash) [
          | inl none_there ↦
              let none_saved = empty none_there in
              load-fresh (empty_store os dir) (with_index idx) other s read loaded none_there
                (unfold blocks_of in ap (λ bs. blocks_of bs []) none_saved)
          | inr (entry, entries, some_there) ↦
              load-indexed (empty_store os dir) (with_index idx) other s entry entries read loaded
                some_there
        ],
        alike store other (sym sync.kept) same.heights same.tips,
      )
