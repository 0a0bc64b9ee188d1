-- ===== src/Tests/Snapshots.antt =====
-- A directory with the snapshots of two epochs and another file.
use xenium.Prelude.{
  ℕ, ◌-◌, ◌≡◌, refl, Option, none, some, List, [], ◌∷◌, ◌⊎◌, All, get_elem?, leb, if◌then◌else◌,
  ◌&&◌,
}
use xenium.Prelude.Bytes.{Bytes, str}
use xenium.Domain.{ok, ◌>>=◌}
use xenium.Storage.{Os}
use xenium.Storage.Snapshots.{load_snapshot_file, load_latest_snapshot}
use xenium.Storage.Snapshots.Latest.{IsUpTo, latest_snapshot, load_latest_snapshot_lem}
use xenium.Tests.Disk.{Files, os, json, dir}

-- The file system of the tests, with one directory.
abbrev listed : List Bytes
listed = str "epoch_2.json" ∷ str "epoch_3.json" ∷ str "notes" ∷ []

abbrev one_dir : Os Files
one_dir = record os { read_dir = λ at s. some (ok listed) }

-- The epoch in a name, of one digit.
abbrev pub digit : List ℕ → Option ℕ
digit [] = none
digit (d ∷ ds) = if leb 48 d && leb d 57 then some (d - 48) else none

abbrev pub scan_epoch : Bytes → Option ℕ
scan_epoch [] = none
scan_epoch (a ∷ []) = none
scan_epoch (a ∷ b ∷ []) = none
scan_epoch (a ∷ b ∷ c ∷ []) = none
scan_epoch (a ∷ b ∷ c ∷ d ∷ []) = none
scan_epoch (a ∷ b ∷ c ∷ d ∷ e ∷ []) = none
scan_epoch (a ∷ b ∷ c ∷ d ∷ e ∷ f ∷ name) = digit name

load_latest_snapshot_lem_example :
    (All (λ name. scan_epoch name ≡ none) listed
      × (load_latest_snapshot one_dir json scan_epoch dir [] ≡ ok none))
    ⊎ ((name : Bytes) × (epoch : ℕ) × (i : ℕ) × (get_elem? listed i ≡ some name)
        × (scan_epoch name ≡ some epoch)
        × All (IsUpTo scan_epoch epoch) listed
        × (load_latest_snapshot one_dir json scan_epoch dir []
            ≡ (load_snapshot_file one_dir json (one_dir.join dir name) [] >>= latest_snapshot)))
load_latest_snapshot_lem_example =
    load_latest_snapshot_lem one_dir json scan_epoch dir listed [] refl (λ name e. cc)
