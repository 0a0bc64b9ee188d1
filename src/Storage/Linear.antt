-- ===== src/Storage/Linear.antt =====
-- The maps of FileBlockStore of adapters/storage_file.go after the blocks of a chain are saved one after another.
use xenium.Prelude.{
  ℕ, suc, ◌+◌, ◌-◌, ◌≤◌, ◌<◌, ◌≡◌, ◌≢◌, refl, ap, ◌∙◌, inl, inr, false, some, Option, List, [], ◌∷◌,
  arith, ◌==◌, ==_iff, Bool-cases, nat_eq, ltb, nat_beq, All, length, get_last?,
}
use xenium.Prelude.Bytes.{Bytes, bytes_key}
use xenium.Prelude.Int.{word}
use xenium.Dict.{lookup, lookup-insert}
use xenium.Domain.{Block, Result-cases, ok}
use xenium.Storage.{
  Os, Json, FileBlockStore, note_block, save_block, append_block, range_from, get_range, get_tip,
}
use xenium.Storage.Restart.{Saves, none_more, one_more, meanwhile}

-- The store finds a block by its height and by its hash.
pub record Holds (store : FileBlockStore) (b : Block) : Type 0 where
  pub height : lookup b.index store.height_to_hash ≡ some b.hash
  pub content : lookup b.hash store.blocks ≡ some b

-- The indices of the blocks count on from `n`.
abbrev pub IsCounted : ℕ → List Block → Type 0
IsCounted n [] = Unit
IsCounted n (b ∷ bs) = (b.index ≡ n) × IsCounted (suc n) bs

-- No other block has the hash of `x`.
abbrev pub IsOwn : Block → Block → Type 0
IsOwn x b = b.hash ≡ x.hash → b ≡ x

unfoldable pub note_all : List Block → FileBlockStore → FileBlockStore
note_all [] store = store
note_all (b ∷ bs) store = note_all bs (note_block b store)

note_block_self : (b : Block) (store : FileBlockStore) → Holds (note_block b store) b
unfolding note_block
note_block_self b store = record {
  height =
      ground
        (arith, lookup-insert b.index b.index b.hash store.height_to_hash, ==_iff b.index b.index);
  content = ground (arith, lookup-insert b.hash b.hash b store.blocks, ==_iff b.hash b.hash);
}

note_block-Holds :
    (b x : Block) (store : FileBlockStore)
    → b.index ≢ x.index
    → IsOwn x b
    → Holds store x
    → Holds (note_block b store) x
unfolding note_block
note_block-Holds b x store apart own holds =
    let height = holds.height in
    let content = holds.content in
    record {
      height = ground (
        arith,
        lookup-insert b.index x.index b.hash store.height_to_hash,
        ==_iff b.index x.index,
      );
      content = elim (Bool-cases (b.hash == x.hash)) [
        | inl same ↦
            let key : b.hash ≡ x.hash = (==_iff b.hash x.hash).0 same in
            let value = own key in ground (arith, lookup-insert b.hash x.hash b store.blocks)
        | inr other ↦ ground (arith, lookup-insert b.hash x.hash b store.blocks)
      ];
    }

note_all-Holds :
    (bs : List Block) (n : ℕ) (x : Block) (store : FileBlockStore)
    → x.index < n
    → IsCounted n bs
    → All (IsOwn x) bs
    → Holds store x
    → Holds (note_all bs store) x
unfolding note_all
note_all-Holds [] n x store low counted own holds = holds
note_all-Holds (b ∷ bs) n x store low counted own holds =
    let at = counted.0 in
    note_all-Holds bs (suc n) x (note_block b store) (omega arith) counted.1 own.1
      (note_block-Holds b x store (λ e. absurd (omega arith)) own.0 holds)

-- Each block of the list is its own under its hash.
abbrev pub IsUnique : List Block → Type 0
IsUnique [] = Unit
IsUnique (b ∷ bs) = All (IsOwn b) bs × IsUnique bs

pub All-held :
    (bs : List Block) (n : ℕ) (store : FileBlockStore)
    → IsCounted n bs
    → IsUnique bs
    → All (Holds (note_all bs store)) bs
unfolding note_all
All-held [] n store counted unique = tt
All-held (b ∷ bs) n store counted unique =
    let at = counted.0 in
    (
      note_all-Holds bs (suc n) b (note_block b store) (omega arith) counted.1 unique.0
          (note_block_self b store),
      All-held bs (suc n) (note_block b store) counted.1 unique.1,
    )

range_from-held :
    (store : FileBlockStore) (bs : List Block) (n : ℕ)
    → IsCounted n bs
    → All (Holds store) bs
    → range_from (length bs) n store ≡ ok bs
unfolding range_from
range_from-held store [] n counted held = refl
range_from-held store (b ∷ bs) n counted held =
    let at = counted.0 in
    let height : lookup n store.height_to_hash ≡ some b.hash = rw at at held.0.height in
    let content = held.0.content in
    let next : n + 1 ≡ suc n = omega arith in
    let rest = range_from-held store bs (suc n) counted.1 held.1 in
    rw (range_from, height, content, next, rest) refl

-- The tip is the last block.
tip-note_all :
    (b : Block) (bs : List Block) (n : ℕ) (last : Block) (store : FileBlockStore)
    → store.tip_height ≤ n
    → IsCounted n (b ∷ bs)
    → get_last? (b ∷ bs) ≡ some last
    → ((note_all (b ∷ bs) store).tip_hash ≡ last.hash) × (suc last.index ≡ n + length (b ∷ bs))
unfolding note_all note_block
tip-note_all b [] n last store low counted at =
    let index = counted.0 in let same : b ≡ last = cc in rw (← same) (ground arith, omega arith)
tip-note_all b (b' ∷ bs) n last store low counted at =
    let index = counted.0 in
    let (tip, end) =
      tip-note_all b' bs (suc n) last (note_block b store) (ground arith) counted.1 at in
    (tip, omega arith)

All-last {ℓ} :
    (P : Block → Type ℓ) (bs : List Block) (last : Block)
    → All P bs
    → get_last? bs ≡ some last
    → P last
All-last P [] last all at = cc
All-last P (b ∷ []) last all at = let same : b ≡ last = cc in rw (← same) all.0
All-last P (b ∷ b' ∷ bs) last all at = All-last P (b' ∷ bs) last all.1 at

-- A chain that was saved in order is what a range over its heights reads, and its last block is the tip.
pub saved_chain :
    (bs : List Block) (last : Block) (store : FileBlockStore)
    → store.tip_height ≡ 0
    → IsCounted 0 bs
    → IsUnique bs
    → get_last? bs ≡ some last
    → last.hash ≢ []
    → length bs < word
    → (get_tip (note_all bs store) ≡ some last)
      × (get_range 0 last.index (note_all bs store) ≡ some (ok bs))
unfolding get_tip get_range
saved_chain [] last store new counted unique at named short = cc
saved_chain (b ∷ bs) last store new counted unique at named short =
    let all = note_all (b ∷ bs) store in
    let held = All-held (b ∷ bs) 0 store counted unique in
    let (tip, end) = tip-note_all b bs 0 last store (omega arith) counted at in
    let here = (All-last (Holds all) (b ∷ bs) last held at).content in
    let rounds : last.index - 0 + 1 ≡ length (b ∷ bs) = omega arith in
    let forward : ltb last.index 0 ≡ false = ground arith in
    let finite : nat_beq last.index (word - 1) ≡ false = ground arith in
    let ranged : range_from (last.index - 0 + 1) 0 all ≡ ok (b ∷ bs) =
      ap (λ (k : ℕ). range_from k 0 all) rounds ∙ range_from-held all (b ∷ bs) 0 counted held in
    (ground (arith, ==_iff last.hash []), rw (get_range, forward, ranged, finite) refl)

module _ {S : Type 0} (os : Os S) (json : Json) (view : S → Bytes → Option Bytes)
    (dir : Bytes) where
  store-save_block :
      (b : Block) (store store' : FileBlockStore) (s s' : S)
      → save_block os json b (store, s) ≡ (ok tt, (store', s'))
      → store' ≡ note_block b store
  unfolding save_block
  store-save_block b store store' s s' h = elim (Result-cases (append_block os json b store s).0) [
    | inr (e, failed) ↦ absurd (ground arith)
    | inl (u, appended) ↦ ground arith
  ]

  -- After a session the maps of the store are those of its blocks.
  pub Saves-note_all :
      {store last : FileBlockStore} {s t : S} {bs : List Block}
      → Saves os json view dir store s bs last t
      → last ≡ note_all bs store
  unfolding note_all
  Saves-note_all none_more = refl
  Saves-note_all {store} {last} {s}
        (one_more {store' = store'} {s' = s'} {b = b} {bs = bs} h more) =
      Saves-note_all more ∙ ap (note_all bs) (store-save_block b store store' s s' h)
  Saves-note_all (meanwhile same more) = Saves-note_all more
