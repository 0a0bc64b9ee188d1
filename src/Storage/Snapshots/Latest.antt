-- ===== src/Storage/Snapshots/Latest.antt =====
-- LoadLatestSnapshot of adapters/storage_file.go: which file of the directory it reads.
use xenium.Prelude.{
  ℕ, suc, ◌≤◌, ◌<◌, ◌≡◌, ◌≢◌, refl, ◌∙◌, arith, Option, none, some, List, [], ◌∷◌, ◌⊎◌, inl, inr,
  Option-cases, Bool-cases, leb, false, All, All-map, get_elem?, ==_iff, ◌==◌,
}
use xenium.Prelude.Bytes.{Bytes, bytes_eq, bytes_key}
use xenium.Domain.{Result, ok, ◌>>=◌}
use xenium.Ports.{LatestSnapshot}
use xenium.Storage.{Os, Json, SnapshotFile}
use xenium.Storage.Snapshots.{latest_of, load_snapshot_file, load_latest_snapshot}

-- What the caller gets of a file.
abbrev pub latest_snapshot : SnapshotFile → Result (Option LatestSnapshot)
latest_snapshot sf = ok (
    some
      (record { epoch = sf.epoch; state_root = sf.state_root; validator_set = sf.validator_set }))

-- The name has no epoch after this one.
abbrev pub IsUpTo : (Bytes → Option ℕ) → ℕ → Bytes → Type 0
IsUpTo scan_epoch epoch name = (e : ℕ) → scan_epoch name ≡ some e → e ≤ epoch

-- The name has no epoch that is this one or a later one.
IsUnder : (Bytes → Option ℕ) → ℕ → Bytes → Type 0
IsUnder scan_epoch epoch name = (e : ℕ) → scan_epoch name ≡ some e → e < epoch

module _ {S : Type 0} (os : Os S) (json : Json) (scan_epoch : Bytes → Option ℕ) where
  -- A name among these has the epoch, and no other has a later one; its path is this.
  abbrev IsLargest : Bytes → List Bytes → ℕ → Bytes → Type 0
  IsLargest dir names low path =
      (name : Bytes) × (epoch : ℕ) × (i : ℕ) × (get_elem? names i ≡ some name)
      × (scan_epoch name ≡ some epoch)
      × (low ≤ epoch)
      × All (IsUpTo scan_epoch epoch) names
      × (path ≡ os.join dir name)

  later :
      (dir n : Bytes) (names : List Bytes) (low low' : ℕ) {path' path : Bytes}
      → path' ≡ path
      → low ≤ low'
      → IsUpTo scan_epoch low' n
      → IsLargest dir names low' path
      → IsLargest dir (n ∷ names) low path'
  later dir n names low low' step le own (name, epoch, i, at, scanned, above, others, there) = (
    name,
    epoch,
    suc i,
    at,
    scanned,
    omega arith,
    ((λ e h. let bound = own e h in omega arith), others),
    step ∙ there,
  )

  scanned_once :
      {name : Bytes} {e e' : ℕ} → scan_epoch name ≡ some e → scan_epoch name ≡ some e' → e ≡ e'
  scanned_once h k = grind (arith, h, k)

  -- What the loop has found when it ends on a path.
  abbrev Found : Bytes → List Bytes → ℕ → Bytes → Bytes → Type 0
  Found dir names low path end =
      (All (IsUnder scan_epoch low) names × (end ≡ path)) ⊎ IsLargest dir names low end

  Found-past :
      (dir n : Bytes) (names : List Bytes) (low : ℕ) (path : Bytes) {end end' : Bytes}
      → IsUnder scan_epoch low n
      → end ≡ end'
      → Found dir names low path end'
      → Found dir (n ∷ names) low path end
  unfolding IsUnder
  Found-past dir n names low path small step (inl (under, same)) = inl ((small, under), step ∙ same)
  Found-past dir n names low path small step (inr largest) = inr (
      later dir n names low low step (omega arith) (λ e h. let lt = small e h in omega arith)
        largest)

  Found-here :
      (dir n : Bytes) (names : List Bytes) (low e : ℕ) (path : Bytes) {end end' : Bytes}
      → scan_epoch n ≡ some e
      → low ≤ e
      → end ≡ end'
      → Found dir names e (os.join dir n) end'
      → Found dir (n ∷ names) low path end
  unfolding IsUnder
  Found-here dir n names low e path scanned le step (inl (under, same)) =
      let own : IsUpTo scan_epoch e n = λ e' h. let one = scanned_once h scanned in omega arith in
      let others =
        All-map (IsUnder scan_epoch e) (IsUpTo scan_epoch e)
          (λ m small e' h. let lt = small e' h in omega arith) names under in
      inr (n, e, 0, refl, scanned, le, (own, others), step ∙ same)
  Found-here dir n names low e path scanned le step (inr largest) =
      let own : IsUpTo scan_epoch e n = λ e' h. let one = scanned_once h scanned in omega arith in
      inr (later dir n names low e step le own largest)

  latest_of_lem :
      (dir : Bytes) (names : List Bytes) (low : ℕ) (path : Bytes)
      → Found dir names low path (latest_of os json scan_epoch dir names low path)
  unfolding latest_of IsUnder
  latest_of_lem dir [] low path = inl (tt, refl)
  latest_of_lem dir (n ∷ names) low path =
      let rest = latest_of_lem dir names low path in
      elim (Option-cases (scan_epoch n)) [
        | inl other ↦
            Found-past dir n names low path (λ e h. absurd (grind (arith, h, other)))
              (rw (latest_of, other) refl) rest
        | inr (e, scanned) ↦ elim (Bool-cases (leb low e)) [
          | inl taken ↦
              Found-here dir n names low e path scanned (ground arith)
                (rw (latest_of, scanned, taken) refl) (latest_of_lem dir names e (os.join dir n))
          | inr passed ↦
              Found-past dir n names low path
                (λ e' h. let one = scanned_once h scanned in ground arith)
                (rw (latest_of, scanned, passed) refl) rest
        ]
      ]

  -- LoadLatestSnapshot of a directory that is there gives no snapshot if no name in it has an epoch;
  -- otherwise it gives what is in the file of a name in it with an epoch that no other name exceeds,
  -- with the error of reading that file. Conditions: the names of the directory are read without an
  -- error, and no path of a name in it is empty.
  pub load_latest_snapshot_lem :
      (dir : Bytes) (names : List Bytes) (s : S)
      → os.read_dir dir s ≡ some (ok names)
      → ((name : Bytes) → os.join dir name ≢ [])
      → (All (λ name. scan_epoch name ≡ none) names
          × (load_latest_snapshot os json scan_epoch dir s ≡ ok none))
        ⊎ ((name : Bytes) × (epoch : ℕ) × (i : ℕ) × (get_elem? names i ≡ some name)
            × (scan_epoch name ≡ some epoch)
            × All (IsUpTo scan_epoch epoch) names
            × (load_latest_snapshot os json scan_epoch dir s
                ≡ (load_snapshot_file os json (os.join dir name) s >>= latest_snapshot)))
  unfolding load_latest_snapshot IsUnder
  load_latest_snapshot_lem dir names s read named = elim (latest_of_lem dir names 0 []) [
    | inl (under, empty) ↦ inl (
      All-map (IsUnder scan_epoch 0) (λ name. scan_epoch name ≡ none)
          (λ name small. elim (Option-cases (scan_epoch name)) [
            | inl other ↦ other
            | inr (e, h) ↦ let lt = small e h in absurd (omega arith)
          ])
          names under,
      rw (load_latest_snapshot, read, empty) (unfold bytes_eq in refl),
    )
    | inr (name, epoch, i, at, scanned, above, others, there) ↦ inr (
      name,
      epoch,
      i,
      at,
      scanned,
      others,
      let some_path : (os.join dir name == []) ≡ false =
            grind (arith, ==_iff (os.join dir name) [], named name) in
          rw (load_latest_snapshot, read, there, some_path) refl,
    )
  ]
