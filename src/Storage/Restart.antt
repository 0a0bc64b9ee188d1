-- ===== src/Storage/Restart.antt =====
-- What NewFileBlockStore of adapters/storage_file.go reads back of the blocks that were saved.
use xenium.Prelude.{
  ◌≡◌, refl, sym, ap, ◌∙◌, arith, Option, none, List, [], ◌∷◌, ◌++◌, get_or, All, nat_eq, ==_iff,
}
use xenium.Prelude.Bytes.{Bytes, str, bytes_key}
use xenium.Prelude.Utf8.{is_utf8}
use xenium.Dict.{lookup}
use xenium.Domain.{Block, ok}
use xenium.Storage.{
  Os, Json, empty_store, FileBlockStore, save_block, load_index, load_blocks, load,
  new_file_block_store,
}
use xenium.Storage.Lines.{unlines}
use xenium.Storage.Disk.{IsStorable, IsWriting, IsReadable, IsJson, HasPaths}
use xenium.Storage.Synced.{blocks_of, IsIndexed, fresh, indexed, IsSynced, save_block-IsSynced}
use xenium.Storage.Loading.{IsAlike, load-fresh, load-synced}

module _ {S : Type 0} (os : Os S) (json : Json) (view : S → Bytes → Option Bytes)
    (dir : Bytes) where
  -- The two files of the store are as they were.
  pub record IsElsewhere (s s' : S) : Type 0 where
    pub blocks_file :
        view s' (os.join dir (str "blocks.jsonl")) ≡ view s (os.join dir (str "blocks.jsonl"))
    pub index_file :
        view s' (os.join dir (str "index.json")) ≡ view s (os.join dir (str "index.json"))

  -- Blocks that are saved one after another, each without an error. Before and behind each save the program may
  -- write other files, as it does for the snapshot of an epoch.
  pub data Saves : FileBlockStore → S → List Block → FileBlockStore → S → Type 0 where
    none_more : {store : FileBlockStore} {s : S} → Saves store s [] store s
    one_more :
        {store store' last : FileBlockStore} {s s' t : S} {b : Block} {bs : List Block}
        → save_block os json b (store, s) ≡ (ok tt, (store', s'))
        → Saves store' s' bs last t
        → Saves store s (b ∷ bs) last t
    meanwhile :
        {store last : FileBlockStore} {s s' t : S} {bs : List Block}
        → IsElsewhere s s'
        → Saves store s' bs last t
        → Saves store s bs last t

  module _ (paths : HasPaths os dir) (writing : IsWriting os view) where
    IsIndexed-elsewhere :
        {saved : List Block} {store : FileBlockStore} {s s' : S}
        → store.index_path ≡ os.join dir (str "index.json")
        → IsElsewhere s s'
        → IsIndexed os json view dir saved store s
        → IsIndexed os json view dir saved store s'
    IsIndexed-elsewhere {s = s} {s' = s'} at same (fresh none_saved missing heights tips tops) =
        fresh none_saved (ap (view s') at ∙ same.index_file ∙ ap (view s) (sym at) ∙ missing)
          heights tips tops
    IsIndexed-elsewhere {s = s} {s' = s'} at same (indexed text h hash marshalled shown found) =
        indexed text h hash marshalled
          (ap (view s') at ∙ same.index_file ∙ ap (view s) (sym at) ∙ shown) found

    IsSynced-elsewhere :
        {saved : List Block} {store : FileBlockStore} {s s' : S}
        → IsElsewhere s s'
        → IsSynced os json view dir saved store s
        → IsSynced os json view dir saved store s'
    IsSynced-elsewhere {s = s} {s' = s'} same sync =
        let left =
          ap (view s') sync.blocks_at ∙ same.blocks_file ∙ ap (view s) (sym sync.blocks_at) in
        record {
          dir_at = sync.dir_at;
          blocks_at = sync.blocks_at;
          index_at = sync.index_at;
          storable = sync.storable;
          shown = ap (λ o. get_or o []) left ∙ sync.shown;
          kept = sync.kept;
          texts = sync.texts;
          index = IsIndexed-elsewhere sync.index_at same sync.index;
        }

    Saves-IsSynced :
        {store last : FileBlockStore} {s t : S} {bs : List Block} (saved : List Block)
        → Saves store s bs last t
        → All (IsStorable json) bs
        → IsSynced os json view dir saved store s
        → (all : List Block) × IsSynced os json view dir all last t
    Saves-IsSynced saved none_more storable sync = (saved, sync)
    Saves-IsSynced {store} {s = s} saved (one_more {store' = store'} {s' = s'} {b = b} h more)
          (good, storable) sync =
        Saves-IsSynced (saved ++ b ∷ []) more storable
          (save_block-IsSynced json writing paths b good saved store store' s s' sync h)
    Saves-IsSynced saved (meanwhile same more) storable sync =
        Saves-IsSynced saved more storable (IsSynced-elsewhere same sync)

    fresh-IsSynced :
        (s : S)
        → view s (os.join dir (str "blocks.jsonl")) ≡ none
        → view s (os.join dir (str "index.json")) ≡ none
        → IsSynced os json view dir [] (empty_store os dir) s
    unfolding unlines blocks_of is_utf8
    fresh-IsSynced s no_blocks no_index = record {
      dir_at = refl;
      blocks_at = refl;
      index_at = refl;
      storable = tt;
      shown = ap (λ o. get_or o []) no_blocks;
      kept = refl;
      texts = record {
        heights_text = λ h hash found. absurd (unfold lookup in ground arith);
        tip_text = refl;
      };
      index = fresh refl no_index refl refl refl;
    }

    new_file_block_store-eq :
        (s s1 : S) (loaded : FileBlockStore)
        → os.mkdir_all dir s ≡ (ok tt, s1)
        → load os json (empty_store os dir) s1 ≡ (ok loaded, s1)
        → new_file_block_store os json dir s ≡ (ok loaded, s1)
    unfolding new_file_block_store
    new_file_block_store-eq s s1 loaded made ready = ground (arith, ==_iff dir [], paths.named)

    load-new :
        (s : S)
        → IsReadable os view s
        → view s (os.join dir (str "blocks.jsonl")) ≡ none
        → view s (os.join dir (str "index.json")) ≡ none
        → load os json (empty_store os dir) s ≡ (ok (empty_store os dir), s)
    unfolding load_index load_blocks
    load-new s readable no_blocks no_index =
        let unread = readable.missing (os.join dir (str "index.json")) no_index in
        let unscanned = readable.unscanned (os.join dir (str "blocks.jsonl")) no_blocks in
        load-fresh os json view dir (empty_store os dir) (empty_store os dir) (empty_store os dir) s
          (rw (load_index, unread) refl) (rw (load_blocks, unscanned) refl) refl refl

    -- A store that is opened in a new directory and saves blocks is found again: NewFileBlockStore, called once
    -- more, returns a store that answers every call for a block, by hash, height, tip or range, like the one that
    -- saved. Between the saves other files may be written. Conditions: the file system and JSON do what they promise,
    -- reads and the calls for the directory succeed, every save returned no error, the hash of each block is UTF-8,
    -- and its text fits a line of 64 KB and is read back.
    pub reopened_lem :
        (s s1 t t1 : S) (bs : List Block) (store : FileBlockStore)
        → IsJson json
        → os.mkdir_all dir s ≡ (ok tt, s1)
        → view s1 (os.join dir (str "blocks.jsonl")) ≡ none
        → view s1 (os.join dir (str "index.json")) ≡ none
        → All (IsStorable json) bs
        → Saves (empty_store os dir) s1 bs store t
        → os.mkdir_all dir t ≡ (ok tt, t1)
        → IsReadable os view s1
        → IsReadable os view t1
        → (new_file_block_store os json dir s ≡ (ok (empty_store os dir), s1))
          × ((other : FileBlockStore) × (new_file_block_store os json dir t ≡ (ok other, t1))
              × IsAlike store other)
    reopened_lem s s1 t t1 bs store codec made no_blocks no_index storable saves again readable1
          readable =
        let (all, sync) = Saves-IsSynced [] saves storable (fresh-IsSynced s1 no_blocks no_index) in
        let (other, loaded, like) = load-synced os json view dir all store t1 readable codec (
          IsSynced-elsewhere
            (record {
              blocks_file = writing.made dir t t1 again (os.join dir (str "blocks.jsonl"));
              index_file = writing.made dir t t1 again (os.join dir (str "index.json"));
            })
            sync) in
        (
          new_file_block_store-eq s s1 (empty_store os dir) made
              (load-new s1 readable1 no_blocks no_index),
          (other, new_file_block_store-eq t t1 other again loaded, like),
        )
