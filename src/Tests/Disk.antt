-- ===== src/Tests/Disk.antt =====
-- A disk that is a map of files, a JSON for it, and a store that is opened twice.
use xenium.Prelude.{
  Bool-cases, ==_iff, ◌==◌, inl, inr, get_elem?, ℕ, zero, suc, ◌≡◌, ◌≢◌, refl, sym, ap, ◌∙◌, false,
  arith, Option, none, some, List, [], ◌∷◌, ◌++◌, get_or, All, nat_beq, nat_beq_iff, nat_eq,
  if◌then◌else◌,
}
use mathlib.Core.Path.{subst}
use xenium.Prelude.Bytes.{Bytes, str, bytes_key, bytes_eq}
use xenium.Prelude.Utf8.{IsUtf8, is_utf8}
use xenium.Dict.{
  Dict, keys, lookup, insert, erase, lookup-insert_self, lookup-insert_ne, lookup-erase_ne,
}
use xenium.Domain.{Block, Result, Checked, ok, err, invalid_json, unwritable}
use xenium.Storage.{
  Os, Json, BlockIndex, SnapshotFile, replace_file, FileBlockStore, newline, empty_store,
  save_block, append_block, note_block, write_index, new_file_block_store,
}
use xenium.Storage.Lines.{unlines, IsLine}
use xenium.Storage.Disk.{IsStorable, IsWriting, IsReadable, IsJson, HasPaths}
use xenium.Storage.Snapshots.{snapshot_name, save_epoch_snapshot, load_snapshot_by_epoch}
use xenium.Storage.Snapshots.Saved.{IsSnapshotJson, IsTextual, load-save_epoch_snapshot}
use xenium.Text.Digits.{format_uint, fill}
use xenium.Storage.Loading.{IsAlike}
use xenium.Storage.Restart.{none_more, one_more, reopened_lem}
use xenium.Chain.Blocks.{zero_block}

abbrev pub Files : Type 0
Files = Dict Bytes Bytes

abbrev push : ℕ → List Bytes → List Bytes
push b [] = (b ∷ []) ∷ []
push b (line ∷ lines) = (b ∷ line) ∷ lines

abbrev split : Bytes → List Bytes
split [] = []
split (b ∷ bs) = if nat_beq b newline then [] ∷ split bs else push b (split bs)

split-line :
    (line rest : Bytes)
    → All (λ b. (b ≢ newline) × (b ≢ 13)) line
    → split (line ++ newline ∷ rest) ≡ line ∷ split rest
split-line [] rest all = refl
split-line (b ∷ bs) rest (plain, all) =
    let tail = split-line bs rest all in
    let other = plain.0 in
    let apart : nat_beq b newline ≡ false = ground (arith, nat_beq_iff b newline) in
    rw (apart, tail) refl

split-unlines : (lines : List Bytes) → All IsLine lines → split (unlines lines) ≡ lines
unfolding unlines
split-unlines [] all = refl
split-unlines (l ∷ ls) (line, all) =
    split-line l (unlines ls) line.one_line ∙ ap (λ rest. l ∷ rest) (split-unlines ls all)

-- Every number of a field is written one larger, and 0 ends the field.
abbrev field : Bytes → Bytes → Bytes
field [] rest = 0 ∷ rest
field (x ∷ xs) rest = suc x ∷ field xs rest

abbrev fields : Bytes → List Bytes
fields [] = []
fields (zero ∷ bs) = [] ∷ fields bs
fields (suc x ∷ bs) = push x (fields bs)

fields-field : (xs rest : Bytes) → fields (field xs rest) ≡ xs ∷ fields rest
fields-field [] rest = refl
fields-field (x ∷ xs) rest = ap (push x) (fields-field xs rest)

abbrev entries_text : Dict ℕ Bytes → Bytes
entries_text [] = []
entries_text ((h, hash) ∷ d) = field (h ∷ []) (field hash (entries_text d))

abbrev entries_of : List Bytes → Dict ℕ Bytes
entries_of ((h ∷ _) ∷ hash ∷ rest) = (h, hash) ∷ entries_of rest
entries_of _ = []

entries-back : (d : Dict ℕ Bytes) → entries_of (fields (entries_text d)) ≡ d
entries-back [] = refl
entries-back ((h, hash) ∷ d) =
    let after = field hash (entries_text d) in
    ap entries_of
      (fields-field (h ∷ []) after ∙ ap (λ r. (h ∷ []) ∷ r) (fields-field hash (entries_text d)))
    ∙ ap (λ r. (h, hash) ∷ r) (entries-back d)

abbrev stakes_text : Dict Bytes ℕ → Bytes
stakes_text [] = []
stakes_text ((name, stake) ∷ d) = field name (field (stake ∷ []) (stakes_text d))

abbrev stakes_of : List Bytes → Dict Bytes ℕ
stakes_of (name ∷ (stake ∷ _) ∷ rest) = (name, stake) ∷ stakes_of rest
stakes_of _ = []

stakes-back : (d : Dict Bytes ℕ) → stakes_of (fields (stakes_text d)) ≡ d
stakes-back [] = refl
stakes-back ((name, stake) ∷ d) =
    let after = field (stake ∷ []) (stakes_text d) in
    ap stakes_of
      (fields-field name after ∙ ap (λ r. name ∷ r) (fields-field (stake ∷ []) (stakes_text d)))
    ∙ ap (λ r. (name, stake) ∷ r) (stakes-back d)

abbrev snapshot_text : SnapshotFile → Bytes
snapshot_text sf = field (sf.epoch ∷ []) (field sf.state_root (stakes_text sf.validator_set))

abbrev snapshot_from : List Bytes → Result SnapshotFile
snapshot_from ((epoch ∷ _) ∷ root ∷ stakes) =
    ok (record { epoch = epoch; state_root = root; validator_set = stakes_of stakes })
snapshot_from _ = err invalid_json

abbrev index_text : BlockIndex → Bytes
index_text idx = field (idx.tip_height ∷ []) (field idx.tip_hash (entries_text idx.height_to_hash))

abbrev index_from : List Bytes → Result BlockIndex
index_from ((top ∷ _) ∷ tip ∷ entries) =
    ok (record { height_to_hash = entries_of entries; tip_hash = tip; tip_height = top })
index_from _ = err invalid_json

-- Two blocks, of the same height.
abbrev first : Block
first = record zero_block { index = 1; hash = str "aa"; slot = 1 }

abbrev second : Block
second = record zero_block { index = 1; hash = str "bb"; slot = 2 }

abbrev pub json : Json
json = record {
  marshal_block = λ b. ok b.hash;
  unmarshal_block = λ line. if bytes_eq line first.hash then ok first else ok second;
  marshal_index = λ idx. ok (index_text idx);
  unmarshal_index = λ text. index_from (fields text);
  marshal_snapshot = λ sf. ok (snapshot_text sf);
  unmarshal_snapshot = λ text. snapshot_from (fields text);
}

pub json-IsJson : IsJson json
json-IsJson = record {
  index_back = λ idx text texts h.
      let top = idx.tip_height ∷ [] in
      let entries = entries_text idx.height_to_hash in
      let shown : fields (index_text idx) ≡ top ∷ idx.tip_hash ∷ fields entries =
        fields-field top (field idx.tip_hash entries)
        ∙ ap (λ r. top ∷ r) (fields-field idx.tip_hash entries) in
      let text_at : index_text idx ≡ text = cc in
      (
        record idx { height_to_hash = entries_of (fields entries) },
        ap (λ t. index_from (fields t)) (sym text_at) ∙ ap index_from shown,
        record {
          heights = λ k. ap (lookup k) (entries-back idx.height_to_hash);
          tips = refl;
          tops = refl;
        },
      );
}

json-IsSnapshotJson : IsSnapshotJson json
json-IsSnapshotJson = record {
  snapshot_back = λ sf text textual h.
      let epoch = sf.epoch ∷ [] in
      let stakes = stakes_text sf.validator_set in
      let shown : fields (snapshot_text sf) ≡ epoch ∷ sf.state_root ∷ fields stakes =
        fields-field epoch (field sf.state_root stakes)
        ∙ ap (λ r. epoch ∷ r) (fields-field sf.state_root stakes) in
      let text_at : snapshot_text sf ≡ text = cc in
      (
        record sf { validator_set = stakes_of (fields stakes) },
        ap (λ t. snapshot_from (fields t)) (sym text_at) ∙ ap snapshot_from shown,
        refl,
        λ name. ap (lookup name) (stakes-back sf.validator_set),
      );
}

abbrev content : Option Bytes → Option (Result Bytes)
content none = none
content (some text) = some (ok text)

abbrev scan : Option Bytes → Option (Result (List Bytes × Checked))
scan none = none
scan (some text) = some (ok (split text, ok tt))

abbrev seen : Option Bytes → Option Checked
seen none = none
seen (some text) = some (ok tt)

abbrev pub move : Option Bytes → Bytes → Bytes → Files → Checked × Files
move none p q s = (err unwritable, s)
move (some text) p q s = (ok tt, insert q text (erase p s))

-- The name of a file in a directory, by the path behind it; and the names in a directory.
abbrev name_in : Bytes → Bytes → Option Bytes
name_in [] path = some path
name_in (x ∷ xs) [] = none
name_in (x ∷ xs) (y ∷ ys) = if nat_beq x y then name_in xs ys else none

abbrev listing : Bytes → List Bytes → List Bytes
listing at [] = []
listing at (path ∷ paths) = elim (name_in at path) [
  | none ↦ listing at paths
  | some name ↦ name ∷ listing at paths
]

abbrev pub os : Os Files
os = record {
  join = λ dir name. dir ++ 47 ∷ name;
  mkdir_all = λ p s. (ok tt, s);
  read_file = λ p s. content (lookup p s);
  scan_file = λ p s. scan (lookup p s);
  open_append = λ p s. (ok tt, insert p (get_or (lookup p s) []) s);
  write_open = λ p text s. (ok tt, insert p (get_or (lookup p s) [] ++ text) s);
  write_file = λ p text s. (ok tt, insert p text s);
  read_dir = λ dir s. some (ok (listing (dir ++ 47 ∷ []) (keys s)));
  stat = λ p s. seen (lookup p s);
  rename = λ p q s. move (lookup p s) p q s;
}

abbrev pub view : Files → Bytes → Option Bytes
view s p = lookup p s

written :
    (p text : Bytes) (s s' : Files)
    → insert p text s ≡ s'
    → (view s' p ≡ some text) × ((q : Bytes) → p ≢ q → view s' q ≡ view s q)
written p text s s' same = (
  ap (lookup p) (sym same) ∙ lookup-insert_self p text s,
  λ q apart. ap (lookup q) (sym same) ∙ lookup-insert_ne p q text s apart,
)

moved :
    (p q : Bytes) (s s' : Files) (found : Option Bytes)
    → lookup p s ≡ found
    → move found p q s ≡ (ok tt, s')
    → (view s' q ≡ found) × ((r : Bytes) → p ≢ r → q ≢ r → view s' r ≡ view s r)
moved p q s s' none at h = absurd (ground arith)
moved p q s s' (some text) at h =
    let same : insert q text (erase p s) ≡ s' = ap (λ r. r.1) h in
    let (there, others) = written q text (erase p s) s' same in
    (there, λ r far near. others r near ∙ lookup-erase_ne p r s far)

pub os-IsReadable : (s : Files) → IsReadable os view s
os-IsReadable s = record {
  missing = λ p none_there. ap content none_there;
  there = λ p text found. ap content found;
  absent = λ p none_there. ap seen none_there;
  present = λ p text found. ap seen found;
  unscanned = λ p none_there. ap scan none_there;
  scanned = λ p lines good found.
      ap scan found ∙ ap (λ ls. some (ok (ls, ok tt))) (split-unlines lines good);
}

pub os-IsWriting : IsWriting os view
os-IsWriting = record {
  made = λ p s s' h q. ap (λ r. lookup q r.1) (sym h);
  opened = λ p s s' h. written p (get_or (lookup p s) []) s s' (ap (λ r. r.1) h);
  appended = λ p text s s' h. written p (get_or (lookup p s) [] ++ text) s s' (ap (λ r. r.1) h);
  replaced = λ p text s s' h. written p text s s' (ap (λ r. r.1) h);
  renamed = λ p q s s' h apart. moved p q s s' (lookup p s) refl h;
}

abbrev pub dir : Bytes
dir = str "d"

pub dir-HasPaths : HasPaths os dir
dir-HasPaths = record {
  named = λ e. cc;
  blocks_index = λ e. cc;
  tmp_blocks = λ e. cc;
  tmp_index = λ e. cc;
}

storable : IsStorable json first × IsStorable json second
unfolding bytes_eq is_utf8
storable = (
  record {
    line = first.hash;
    written = refl;
    read = refl;
    as_line = record { one_line = ground arith; fits = omega arith };
    hash_text = refl;
  },
  record {
    line = second.hash;
    written = refl;
    read = refl;
    as_line = record { one_line = ground arith; fits = omega arith };
    hash_text = refl;
  },
)

abbrev save : Block → FileBlockStore × Files → FileBlockStore × Files
save b s = (save_block os json b s).1

abbrev once : FileBlockStore × Files
once = save first (empty_store os dir, [])

abbrev twice : FileBlockStore × Files
twice = save second once

saved :
    (save_block os json first (empty_store os dir, []) ≡ (ok tt, once))
    × (save_block os json second once ≡ (ok tt, twice))
unfolding save_block append_block note_block write_index replace_file lookup insert erase bytes_eq
saved = (refl, refl)

reopened_lem_example :
    (new_file_block_store os json dir [] ≡ (ok (empty_store os dir), []))
    × ((other : FileBlockStore) × (new_file_block_store os json dir twice.1 ≡ (ok other, twice.1))
        × IsAlike twice.0 other)
reopened_lem_example =
    reopened_lem os json view dir dir-HasPaths os-IsWriting [] [] twice.1 twice.1
      (first ∷ second ∷ []) twice.0 json-IsJson refl (unfold lookup in refl) (unfold lookup in refl)
      (storable.0, (storable.1, tt)) (one_more saved.0 (one_more saved.1 none_more)) refl
      (os-IsReadable []) (os-IsReadable twice.1)

abbrev stakes : Dict Bytes ℕ
stakes = (str "alice", 60) ∷ (str "bob", 40) ∷ []

abbrev kept : Files
kept = (save_epoch_snapshot os json dir 3 (str "r") stakes []).1

snapshot_saved : save_epoch_snapshot os json dir 3 (str "r") stakes [] ≡ (ok tt, kept)
unfolding save_epoch_snapshot snapshot_name replace_file format_uint fill lookup insert erase
    bytes_eq
snapshot_saved = refl

file_names : (snapshot_name 3 ≡ str "epoch_3.json") × (snapshot_name 4 ≡ str "epoch_4.json")
unfolding snapshot_name format_uint fill
file_names = (refl, refl)

names_apart :
    (os.join dir (snapshot_name 3) ++ str ".tmp" ≢ os.join dir (snapshot_name 3))
    × (os.join dir (snapshot_name 3) ++ str ".tmp" ≢ os.join dir (snapshot_name 4))
    × (os.join dir (snapshot_name 3) ≢ os.join dir (snapshot_name 4))
names_apart =
    let three = file_names.0 in
    let four = file_names.1 in
    rw (three, four)
      (
        λ e. cc,
        λ e. cc,
        λ e. let digit : 51 ≡ 52 = ap (λ path. get_or (get_elem? path 8) 0) e in omega arith,
      )

name-IsUtf8 :
    (name k : Bytes) (v stake : ℕ) (d : Dict Bytes ℕ)
    → IsUtf8 k
    → (lookup name d ≡ some stake → IsUtf8 name)
    → lookup name ((k, v) ∷ d) ≡ some stake
    → IsUtf8 name
unfolding lookup
name-IsUtf8 name k v stake d text rest found = elim (Bool-cases (k == name)) [
  | inl same ↦ subst (λ n. IsUtf8 n) ((==_iff k name).0 same) text
  | inr other ↦ rest (ground arith)
]

none_found : (name : Bytes) (stake : ℕ) → lookup name [] ≡ some stake → IsUtf8 name
unfolding lookup
none_found name stake found = absurd (ground arith)

stakes-IsTextual : IsTextual (record { epoch = 3; state_root = str "r"; validator_set = stakes })
unfolding is_utf8
stakes-IsTextual = record {
  root_text = refl;
  names_text = λ name stake found.
      name-IsUtf8 name (str "alice") 60 stake ((str "bob", 40) ∷ []) refl
        (name-IsUtf8 name (str "bob") 40 stake [] refl (none_found name stake)) found;
}

load-save_epoch_snapshot_example :
    ((found : Dict Bytes ℕ) × (load_snapshot_by_epoch os json dir 3 kept
        ≡ ok (some (str "r", found)))
      × ((name : Bytes) → lookup name found ≡ lookup name stakes))
    × (load_snapshot_by_epoch os json dir 4 kept ≡ load_snapshot_by_epoch os json dir 4 [])
load-save_epoch_snapshot_example =
    load-save_epoch_snapshot os json view dir 3 4 (str "r") stakes [] kept os-IsWriting
      json-IsSnapshotJson (os-IsReadable []) (os-IsReadable kept) names_apart.0 names_apart.1
      names_apart.2 stakes-IsTextual snapshot_saved
