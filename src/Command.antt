-- ===== src/Command.antt =====
-- cmd/xenium/main.go: the functions beside `main` on chains, snapshots and forks. What they print is the list of the
-- lines.
pub mod Depth
use xenium.Prelude.{
  ℕ, zero, suc, ◌+◌, ◌-◌, not, Option, none, some, List, [], ◌∷◌, ◌++◌, ltb, if◌then◌else◌, ◌==◌,
  nat_eq, length, get_elem?, get_or,
}
use xenium.Prelude.Bytes.{Bytes, str, bytes_key, bytes_lt}
use xenium.Prelude.Sort.{sort_slice}
use xenium.Dict.{Dict, lookup, insert, keys}
use xenium.Domain.{Block, Validators}
use xenium.Text.Digits.{format_uint, format_int}
use xenium.Leader.{stake_of}
use xenium.Chain.{EpochSnapshot}
use xenium.Chain.Reports.{ForkCandidate}

-- The loop of `computeReorgDepth` from index `i` on, `rounds` times: the first index at which the hashes differ.
-- Both indices are in range there.
unfoldable pub diverge_from : ℕ → ℕ → ℕ → List Block → List Block → ℕ
diverge_from zero i min_len old new = min_len
diverge_from (suc rounds) i min_len old new = elim (get_elem? old i) [
  | none ↦ min_len
  | some a ↦ elim (get_elem? new i) [
    | none ↦ min_len
    | some b ↦
        let rest = diverge_from rounds (i + 1) min_len old new in
        if not (a.hash == b.hash) then i else rest
  ]
]

unfoldable pub compute_reorg_depth : List Block → List Block → ℕ
compute_reorg_depth old new =
    let min_len = if ltb (length new) (length old) then length new else length old in
    length old - diverge_from min_len 0 min_len old new

-- The lines of `printStakeSummary`; an entry that the map lacks cannot occur, and has no line here.
unfoldable pub stake_lines : Validators → List Bytes → List Bytes
stake_lines validators [] = []
stake_lines validators (name ∷ names) = elim (lookup name validators) [
  | none ↦ stake_lines validators names
  | some v ↦ (name ++ str ": " ++ format_int v.stake) ∷ stake_lines validators names
]

unfoldable pub print_stake_summary : Bytes → Validators → List Bytes
print_stake_summary label validators =
    label ∷ stake_lines validators (sort_slice bytes_lt (keys validators)) ++ [] ∷ []

-- `fmt.Sprintf("%d,%d,", ...)`
unfoldable pub csv_start : EpochSnapshot → Bytes
csv_start s = format_uint s.epoch ++ str "," ++ format_uint s.total_stake ++ str ","

unfoldable pub csv_rows : EpochSnapshot → List Bytes → List Bytes
csv_rows s [] = []
csv_rows s (k ∷ ks) =
    (csv_start s ++ k ++ str "," ++ format_uint (stake_of s.validators k)) ∷ csv_rows s ks

-- The rows of one snapshot.
unfoldable pub csv_snapshot : EpochSnapshot → List Bytes
csv_snapshot s = elim (sort_slice bytes_lt (keys s.validators)) [
  | [] ↦ (csv_start s ++ str ",") ∷ []
  | k ∷ ks ↦ csv_rows s (k ∷ ks)
]

unfoldable pub csv_snapshots : List EpochSnapshot → List Bytes
csv_snapshots [] = []
csv_snapshots (s ∷ ss) = csv_snapshot s ++ csv_snapshots ss

-- The lines that `writeEpochSnapshotCSV` writes, of the snapshots that `GetAllEpochSnapshots` returns.
unfoldable pub epoch_snapshot_csv : List EpochSnapshot → List Bytes
epoch_snapshot_csv snaps = str "epoch,total_stake,validator,stake" ∷ csv_snapshots snaps

-- `tipsBySlot` of `printForkTimeline`.
unfoldable pub tips_by_slot : List ForkCandidate → Dict ℕ (List Bytes) → Dict ℕ (List Bytes)
tips_by_slot [] tips = tips
tips_by_slot (x ∷ xs) tips =
    tips_by_slot xs (insert x.slot (get_or (lookup x.slot tips) [] ++ x.hash ∷ []) tips)

-- `strings.Join(tips, ",")`
unfoldable pub join_commas : List Bytes → Bytes
join_commas [] = []
join_commas (t ∷ []) = t
join_commas (t ∷ u ∷ us) = t ++ str "," ++ join_commas (u ∷ us)

unfoldable pub timeline_line : Dict ℕ (List Bytes) → Block → Bytes
timeline_line tips b =
    let line = str "slot " ++ format_uint b.slot ++ str " canonical=" ++ b.hash in
    elim (sort_slice bytes_lt (get_or (lookup b.slot tips) [])) [
      | [] ↦ line
      | t ∷ ts ↦ line ++ str " tips=" ++ join_commas (t ∷ ts)
    ]

unfoldable pub timeline_lines : Dict ℕ (List Bytes) → List Block → List Bytes
timeline_lines tips [] = []
timeline_lines tips (b ∷ bs) = timeline_line tips b ∷ timeline_lines tips bs

-- The lines of `printForkTimeline`, of the candidates that `GetForkCandidates` returns.
unfoldable pub print_fork_timeline : List ForkCandidate → List Block → List Bytes
print_fork_timeline candidates chain =
    str "Fork timeline (canonical + tips)" ∷ timeline_lines (tips_by_slot candidates []) chain
    ++ [] ∷ []
