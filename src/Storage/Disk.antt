-- ===== src/Storage/Disk.antt =====
-- What the store of adapters/storage_file.go relies on of Go's packages, and what its own writes leave in the files.
use xenium.Prelude.{
  ℕ, ◌≡◌, ◌≢◌, refl, ◌∙◌, arith, Option, none, some, List, [], ◌∷◌, ◌++◌, get_or, All, nat_eq, inl,
  inr,
}
use xenium.Prelude.Bytes.{Bytes, str, bytes_key}
use xenium.Prelude.Utf8.{IsUtf8}
use xenium.Dict.{lookup}
use xenium.Domain.{Block, Result, Checked, ok, err, Result-cases}
use xenium.Storage.{
  Os, Json, BlockIndex, FileBlockStore, newline, and_then, append_block, replace_file, write_index,
}
use xenium.Storage.Lines.{unlines, IsLine}

-- The index, as it is written and read.
pub record SameIndex (idx idx' : BlockIndex) : Type 0 where
  pub heights : (h : ℕ) → lookup h idx'.height_to_hash ≡ lookup h idx.height_to_hash
  pub tips : idx'.tip_hash ≡ idx.tip_hash
  pub tops : idx'.tip_height ≡ idx.tip_height

-- The hashes of an index are UTF-8, which JSON gives back unchanged.
pub record HasTexts (idx : BlockIndex) : Type 0 where
  pub heights_text : (h : ℕ) (hash : Bytes) → lookup h idx.height_to_hash ≡ some hash → IsUtf8 hash
  pub tip_text : IsUtf8 idx.tip_hash

-- An index whose hashes are UTF-8 is read back as it was written.
pub record IsJson (json : Json) : Type 0 where
  pub index_back :
      (idx : BlockIndex) (text : Bytes)
      → HasTexts idx
      → json.marshal_index idx ≡ ok text
      → (idx' : BlockIndex) × (json.unmarshal_index text ≡ ok idx') × SameIndex idx idx'

-- A block with a hash in UTF-8, whose text fits a line and is read back as the block.
pub record IsStorable (json : Json) (b : Block) : Type 0 where
  pub line : Bytes
  pub written : json.marshal_block b ≡ ok line
  pub read : json.unmarshal_block line ≡ ok b
  pub as_line : IsLine line
  pub hash_text : IsUtf8 b.hash

-- What a call that succeeds does to the files; `view` is the content of a file.
pub record IsWriting {S : Type 0} (os : Os S) (view : S → Bytes → Option Bytes) : Type 0 where
  pub made :
      (p : Bytes) (s s' : S) → os.mkdir_all p s ≡ (ok tt, s') → (q : Bytes) → view s' q ≡ view s q
  pub opened :
      (p : Bytes) (s s' : S)
      → os.open_append p s ≡ (ok tt, s')
      → (view s' p ≡ some (get_or (view s p) [])) × ((q : Bytes) → p ≢ q → view s' q ≡ view s q)
  pub appended :
      (p text : Bytes) (s s' : S)
      → os.write_open p text s ≡ (ok tt, s')
      → (view s' p ≡ some (get_or (view s p) [] ++ text))
        × ((q : Bytes) → p ≢ q → view s' q ≡ view s q)
  pub replaced :
      (p text : Bytes) (s s' : S)
      → os.write_file p text s ≡ (ok tt, s')
      → (view s' p ≡ some text) × ((q : Bytes) → p ≢ q → view s' q ≡ view s q)
  pub renamed :
      (p q : Bytes) (s s' : S)
      → os.rename p q s ≡ (ok tt, s')
      → p ≢ q
      → (view s' q ≡ view s p) × ((r : Bytes) → p ≢ r → q ≢ r → view s' r ≡ view s r)

-- A disk whose reads succeed.
pub record IsReadable {S : Type 0} (os : Os S) (view : S → Bytes → Option Bytes) (s : S)
    : Type 0 where
  pub missing : (p : Bytes) → view s p ≡ none → os.read_file p s ≡ none
  pub there : (p text : Bytes) → view s p ≡ some text → os.read_file p s ≡ some (ok text)
  pub absent : (p : Bytes) → view s p ≡ none → os.stat p s ≡ none
  pub present : (p text : Bytes) → view s p ≡ some text → os.stat p s ≡ some (ok tt)
  pub unscanned : (p : Bytes) → view s p ≡ none → os.scan_file p s ≡ none
  pub scanned :
      (p : Bytes) (lines : List Bytes)
      → All IsLine lines
      → view s p ≡ some (unlines lines)
      → os.scan_file p s ≡ some (ok (lines, ok tt))

-- The files of a directory have names of their own.
pub record HasPaths {S : Type 0} (os : Os S) (dir : Bytes) : Type 0 where
  pub named : dir ≢ []
  pub blocks_index : os.join dir (str "blocks.jsonl") ≢ os.join dir (str "index.json")
  pub tmp_blocks : os.join dir (str "index.json") ++ str ".tmp" ≢ os.join dir (str "blocks.jsonl")
  pub tmp_index : os.join dir (str "index.json") ++ str ".tmp" ≢ os.join dir (str "index.json")

abbrev pub index_of : FileBlockStore → BlockIndex
index_of store = record {
  height_to_hash = store.height_to_hash;
  tip_hash = store.tip_hash;
  tip_height = store.tip_height;
}

pub and_then-eq-ok {ℓ} :
    {S : Type 0} {X : Type ℓ} (call : Checked × S) (next : S → Result X × S) {x : X} {s' : S}
    → and_then call next ≡ (ok x, s')
    → (s1 : S) × (call ≡ (ok tt, s1)) × (next s1 ≡ (ok x, s'))
and_then-eq-ok (ok u, s1) next h = (s1, refl, h)
and_then-eq-ok (err e, s1) next h = absurd (ground arith)

module _ {S : Type 0} {os : Os S} {view : S → Bytes → Option Bytes} (json : Json)
    (writing : IsWriting os view) where
  pub replace_file-view :
      (path text : Bytes) (s s' : S)
      → path ++ str ".tmp" ≢ path
      → replace_file os path text s ≡ (ok tt, s')
      → (view s' path ≡ some text)
        × ((q : Bytes) → path ++ str ".tmp" ≢ q → path ≢ q → view s' q ≡ view s q)
  unfolding replace_file
  replace_file-view path text s s' apart h =
      let tmp = path ++ str ".tmp" in
      let (s1, filled, moved) = and_then-eq-ok (os.write_file tmp text s) (os.rename tmp path) h in
      let (content, others) = writing.replaced tmp text s s1 filled in
      let (taken, rest) = writing.renamed tmp path s1 s' moved apart in
      (taken ∙ content, λ q far near. rest q far near ∙ others q far)

  pub write_index-view :
      (store : FileBlockStore) (s s' : S)
      → store.index_path ++ str ".tmp" ≢ store.index_path
      → write_index os json store s ≡ (ok tt, s')
      → (text : Bytes) × (json.marshal_index (index_of store) ≡ ok text)
        × (view s' store.index_path ≡ some text)
        × ((q : Bytes)
            → store.index_path ++ str ".tmp" ≢ q
            → store.index_path ≢ q
            → view s' q ≡ view s q)
  unfolding write_index
  write_index-view store s s' apart h = elim (Result-cases (json.marshal_index (index_of store))) [
    | inr (e, failed) ↦ absurd (ground arith)
    | inl (text, marshalled) ↦
        let (content, others) =
          replace_file-view store.index_path text s s' apart (rw (write_index, marshalled) at h) in
        (text, marshalled, content, others)
  ]

  pub append_block-view :
      (b : Block) (good : IsStorable json b) (store : FileBlockStore) (s s' : S)
      → append_block os json b store s ≡ (ok tt, s')
      → (view s' store.blocks_path
          ≡ some (get_or (view s store.blocks_path) [] ++ (good.line ++ newline ∷ [])))
        × ((q : Bytes) → store.blocks_path ≢ q → view s' q ≡ view s q)
  unfolding append_block
  append_block-view b good store s s' h =
      let written = good.written in
      let (s1, opened, grown) = and_then-eq-ok (os.open_append store.blocks_path s) _ h in
      let (there, others) = writing.opened store.blocks_path s s1 opened in
      let (content, rest) =
        writing.appended store.blocks_path (good.line ++ newline ∷ []) s1 s'
          (rw written at grown) in
      (rw there at content, λ q far. rest q far ∙ others q far)
