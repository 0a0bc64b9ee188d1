-- ===== src/Storage/Synced.antt =====
-- The files of a store of adapters/storage_file.go, and what it holds in memory.
use mathlib.Core.List.{append_assoc, map-append}
use xenium.Prelude.{
  ℕ, ◌≡◌, ◌≢◌, ==_iff, refl, sym, ap, ◌∙◌, arith, Option, none, some, List, [], ◌∷◌, ◌++◌, map,
  get_or, All, All-snoc, nat_eq, inl, inr,
}
use xenium.Prelude.Bytes.{Bytes, str, bytes_key}
use xenium.Dict.{Dict, lookup, insert, lookup-insert, lookup-insert_self}
use xenium.Domain.{Block, ok, err, Result-cases}
use xenium.Storage.{
  Os, Json, FileBlockStore, newline, append_block, note_block, write_index, save_block,
}
use xenium.Storage.Lines.{unlines}
use xenium.Storage.Disk.{
  IsStorable, HasTexts, IsWriting, HasPaths, index_of, write_index-view, append_block-view,
}

-- The line of a block in the file.
abbrev pub line_of : Json → Block → Bytes
line_of json b = elim (json.marshal_block b) [ ok line ↦ line | err e ↦ [] ]

-- The map of blocks after some were saved, in this order.
unfoldable pub blocks_of : List Block → Dict Bytes Block → Dict Bytes Block
blocks_of [] blocks = blocks
blocks_of (b ∷ bs) blocks = blocks_of bs (insert b.hash b blocks)

module _ {S : Type 0} (os : Os S) (json : Json) (view : S → Bytes → Option Bytes)
    (dir : Bytes) where
  -- What the index file holds: nothing before the first block, and then the index in memory.
  pub data IsIndexed (saved : List Block) (store : FileBlockStore) (s : S) : Type 0 where
    fresh :
        saved ≡ []
        → view s store.index_path ≡ none
        → store.height_to_hash ≡ []
        → store.tip_hash ≡ []
        → store.tip_height ≡ 0
        → IsIndexed saved store s
    indexed :
        (text : Bytes) (h : ℕ) (hash : Bytes)
        → json.marshal_index (index_of store) ≡ ok text
        → view s store.index_path ≡ some text
        → lookup h store.height_to_hash ≡ some hash
        → IsIndexed saved store s

  -- The store of a directory behind the saves of some blocks: their lines are in the file in this order, the index
  -- file shows the index in memory, and the map holds them.
  pub record IsSynced (saved : List Block) (store : FileBlockStore) (s : S) : Type 0 where
    pub dir_at : store.dir ≡ dir
    pub blocks_at : store.blocks_path ≡ os.join dir (str "blocks.jsonl")
    pub index_at : store.index_path ≡ os.join dir (str "index.json")
    pub storable : All (IsStorable json) saved
    pub shown : get_or (view s store.blocks_path) [] ≡ unlines (map (line_of json) saved)
    pub kept : store.blocks ≡ blocks_of saved []
    pub index : IsIndexed saved store s
    pub texts : HasTexts (index_of store)

unlines-snoc :
    (lines : List Bytes) (line : Bytes)
    → unlines (lines ++ line ∷ []) ≡ unlines lines ++ (line ++ newline ∷ [])
unfolding unlines
unlines-snoc [] line = refl
unlines-snoc (l ∷ ls) line =
    ap (λ rest. l ++ newline ∷ rest) (unlines-snoc ls line)
    ∙ sym (append_assoc l (newline ∷ unlines ls) (line ++ newline ∷ []))

pub line_of-eq : (json : Json) (b : Block) (good : IsStorable json b) → line_of json b ≡ good.line
line_of-eq json b good = ap (λ r. elim r [ ok line ↦ line | err e ↦ [] ]) good.written

lines-snoc :
    (json : Json) (saved : List Block) (b : Block) (good : IsStorable json b)
    → unlines (map (line_of json) (saved ++ b ∷ []))
      ≡ unlines (map (line_of json) saved) ++ (good.line ++ newline ∷ [])
lines-snoc json saved b good =
    ap unlines (map-append (line_of json) saved (b ∷ []))
    ∙ unlines-snoc (map (line_of json) saved) (line_of json b)
    ∙ ap (λ line. unlines (map (line_of json) saved) ++ (line ++ newline ∷ []))
        (line_of-eq json b good)

blocks_of-snoc :
    (bs : List Block) (b : Block) (d : Dict Bytes Block)
    → blocks_of (bs ++ b ∷ []) d ≡ insert b.hash b (blocks_of bs d)
unfolding blocks_of
blocks_of-snoc [] b d = refl
blocks_of-snoc (x ∷ xs) b d = blocks_of-snoc xs b (insert x.hash x d)

note_block-keeps :
    (b : Block) (store : FileBlockStore)
    → let noted = note_block b store in
      (noted.dir ≡ store.dir)
      × (noted.blocks_path ≡ store.blocks_path)
      × (noted.index_path ≡ store.index_path)
      × (noted.blocks ≡ insert b.hash b store.blocks)
      × (noted.height_to_hash ≡ insert b.index b.hash store.height_to_hash)
unfolding note_block
note_block-keeps b store = ground arith

note_block-HasTexts :
    {json : Json} (b : Block)
    → IsStorable json b
    → (store store' : FileBlockStore) → store' ≡ note_block b store
    → HasTexts (index_of store)
    → HasTexts (index_of store')
unfolding note_block
note_block-HasTexts b good store store' same texts = rw same (record {
  heights_text = λ h hash found.
      let own = good.hash_text in
      let old = texts.heights_text h hash in
      ground (arith, lookup-insert b.index h b.hash store.height_to_hash, ==_iff b.index h);
  tip_text = let own = good.hash_text in let old = texts.tip_text in ground arith;
})

module _ {S : Type 0} {os : Os S} {view : S → Bytes → Option Bytes} (json : Json)
    (writing : IsWriting os view) {dir : Bytes} (paths : HasPaths os dir) where
  save_block-parts :
      (b : Block) (store store' : FileBlockStore) (s s' : S)
      → save_block os json b (store, s) ≡ (ok tt, (store', s'))
      → (s1 : S) × (append_block os json b store s ≡ (ok tt, s1))
        × (store' ≡ note_block b store)
        × (write_index os json store' s1 ≡ (ok tt, s'))
  unfolding save_block
  save_block-parts b store store' s s' h = elim (Result-cases (append_block os json b store s).0) [
    | inr (e, failed) ↦ absurd (ground arith)
    | inl (u, went) ↦
        let s1 = (append_block os json b store s).1 in
        let noted = note_block b store in
        let done : ((write_index os json noted s1).0, (noted, (write_index os json noted s1).1))
            ≡ (ok tt, (store', s')) =
          rw (save_block, went) at h in
        let same : noted ≡ store' = ap (λ r. r.1.0) done in
        (s1, ap (λ u. (u, s1)) went, sym same, rw (sym same) (ap (λ r. (r.0, r.1.1)) done))
  ]

  -- A save that succeeds keeps the files and the memory of the store in step, with the block behind those saved
  -- before. Conditions: the operating system does what it promises, the files have names of their own, and the
  -- text of the block fits a line and is read back as the block.
  pub save_block-IsSynced :
      (b : Block)
      → IsStorable json b
      → (saved : List Block) (store store' : FileBlockStore) (s s' : S)
      → IsSynced os json view dir saved store s
      → save_block os json b (store, s) ≡ (ok tt, (store', s'))
      → IsSynced os json view dir (saved ++ b ∷ []) store' s'
  save_block-IsSynced b good saved store store' s s' sync h =
      let (s1, appended, same, written) = save_block-parts b store store' s s' h in
      let (dir_same, blocks_same, index_same, blocks_new, heights_new) = note_block-keeps b store in
      let (content, others) = append_block-view json writing b good store s s1 appended in
      let blocks_at : store'.blocks_path ≡ os.join dir (str "blocks.jsonl") =
        ap (λ r. r.blocks_path) same ∙ blocks_same ∙ sync.blocks_at in
      let index_at : store'.index_path ≡ os.join dir (str "index.json") =
        ap (λ r. r.index_path) same ∙ index_same ∙ sync.index_at in
      let tmp_at = ap (λ p. p ++ str ".tmp") index_at in
      let apart : store'.index_path ++ str ".tmp" ≢ store'.index_path =
        λ e. paths.tmp_index (sym tmp_at ∙ e ∙ index_at) in
      let (text, marshalled, shown, rest) =
        write_index-view json writing store' s1 s' apart written in
      let left : view s' store'.blocks_path
          ≡ some (get_or (view s store.blocks_path) [] ++ (good.line ++ newline ∷ [])) =
        rest store'.blocks_path (λ e. paths.tmp_blocks (sym tmp_at ∙ e ∙ blocks_at))
          (λ e. paths.blocks_index (sym blocks_at ∙ sym e ∙ index_at))
        ∙ ap (λ r. view s1 r.blocks_path) same
        ∙ ap (view s1) blocks_same
        ∙ content in
      record {
        dir_at = ap (λ r. r.dir) same ∙ dir_same ∙ sync.dir_at;
        blocks_at = blocks_at;
        index_at = index_at;
        storable = All-snoc (IsStorable json) saved b sync.storable good;
        shown =
            ap (λ o. get_or o []) left
            ∙ ap (λ t. t ++ (good.line ++ newline ∷ [])) sync.shown
            ∙ sym (lines-snoc json saved b good);
        kept =
            ap (λ r. r.blocks) same
            ∙ blocks_new
            ∙ ap (insert b.hash b) sync.kept
            ∙ sym (blocks_of-snoc saved b []);
        texts = note_block-HasTexts b good store store' same sync.texts;
        index = indexed text b.index b.hash marshalled shown (
            ap (λ r. lookup b.index r.height_to_hash) same
            ∙ ap (lookup b.index) heights_new
            ∙ lookup-insert_self b.index b.hash store.height_to_hash);
      }
