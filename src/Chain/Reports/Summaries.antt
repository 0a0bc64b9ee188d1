-- ===== src/Chain/Reports/Summaries.antt =====
-- GetValidatorSummaries of core/blockchain.go. Floating-point numbers are a parameter: `zero_rate` is 0, and `rate m n`
-- is float64(m) / float64(n).
use mathlib.Core.List.{Perm}
use xenium.Prelude.{
  ℕ, suc, ◌+◌, ◌<◌, ◌≤◌, ◌≡◌, refl, ap, ◌∙◌, ◌++◌, none, some, Option-cases, nat_eq, length, inl,
  inr, Bool, List, [], ◌∷◌, arith, ltb, if◌then◌else◌, ◌==◌, ==_iff, Bool-cases, get_or, map, All,
}
use xenium.Prelude.Bytes.{Bytes, bytes_key, bytes_lt, bytes_lt_asymm, bytes_lt_not_trans}
use xenium.Prelude.Int.{word, add_word}
use xenium.Prelude.Sort.{sort_slice, IsWeakOrder, IsSorted, sort_slice-perm, sort_slice-IsSorted}
use xenium.Dict.{Dict, lookup, insert, keys, values, lookup-insert}
use xenium.Chain.Rebuild.{slot_map, rebuild_slot_map, after_first}
use xenium.Domain.{Block, Stats, zero_stats}
use xenium.Chain.{Blockchain}

pub record ValidatorSummary (F : Type 0) : Type 0 where
  pub name : Bytes
  pub produced : ℕ
  pub missed : ℕ
  pub miss_rate : F
  pub slashed : Bool
  pub jailed_until : ℕ

-- `for _, v := range bc.SlotProduced { produced[v]++ }`
unfoldable pub count_produced : List Bytes → Dict Bytes ℕ → Dict Bytes ℕ
count_produced [] produced = produced
count_produced (v ∷ vs) produced =
    count_produced vs (insert v (add_word (get_or (lookup v produced) 0) 1) produced)

module _ {F : Type 0} (zero_rate : F) (rate : ℕ → ℕ → F) where
  unfoldable pub summary_of : Stats → Dict Bytes ℕ → Bytes → ValidatorSummary F
  summary_of all produced name =
      let stats = get_or (lookup name all) zero_stats in
      let prod = get_or (lookup name produced) 0 in
      let total = add_word prod stats.missed_slots in
      record {
        name = name;
        produced = prod;
        missed = stats.missed_slots;
        miss_rate = if ltb 0 total then rate stats.missed_slots total else zero_rate;
        slashed = stats.slashed;
        jailed_until = stats.jailed_until_epoch;
      }

  unfoldable pub summaries_of : Stats → Dict Bytes ℕ → List Bytes → List (ValidatorSummary F)
  summaries_of all produced [] = []
  summaries_of all produced (name ∷ names) =
      summary_of all produced name ∷ summaries_of all produced names

  unfoldable pub get_validator_summaries : Blockchain → List (ValidatorSummary F)
  get_validator_summaries bc =
      summaries_of bc.stats (count_produced (values bc.slot_produced) [])
        (sort_slice bytes_lt (keys bc.validators))

-- How often a name occurs.
abbrev pub occurrences : Bytes → List Bytes → ℕ
occurrences name [] = 0
occurrences name (v ∷ vs) = if v == name then suc (occurrences name vs) else occurrences name vs

count_produced_lem :
    (vs : List Bytes) (produced : Dict Bytes ℕ) (name : Bytes)
    → get_or (lookup name produced) 0 + occurrences name vs < word
    → get_or (lookup name (count_produced vs produced)) 0
      ≡ get_or (lookup name produced) 0 + occurrences name vs
unfolding count_produced
count_produced_lem [] produced name small = omega arith
count_produced_lem (v ∷ vs) produced name small =
    let next = add_word (get_or (lookup v produced) 0) 1 in
    let now = lookup-insert v name next produced in
    elim (Bool-cases (v == name)) [
      | inl same ↦
          let key : v ≡ name = (==_iff v name).0 same in
          let read : lookup v produced ≡ lookup name produced =
            ap (λ (k : Bytes). lookup k produced) key in
          ground (arith, count_produced_lem vs (insert v next produced) name)
      | inr other ↦ ground (arith, count_produced_lem vs (insert v next produced) name)
    ]

-- How many of some blocks the validator made.
abbrev pub made_by : Bytes → List Block → ℕ
made_by name [] = 0
made_by name (b ∷ bs) = if b.validator == name then suc (made_by name bs) else made_by name bs

-- The slots rise, from `n` on.
abbrev pub IsRising : ℕ → List Block → Type 0
IsRising n [] = Unit
IsRising n (b ∷ bs) = (n ≤ b.slot) × IsRising (suc b.slot) bs

made_by-le : (name : Bytes) (bs : List Block) → made_by name bs ≤ length bs
made_by-le name [] = omega arith
made_by-le name (b ∷ bs) = ground (arith, made_by-le name bs)

occurrences-append :
    (name v : Bytes) (vs : List Bytes)
    → occurrences name (vs ++ v ∷ []) ≡ occurrences name vs + (if v == name then 1 else 0)
occurrences-append name v [] = ground arith
occurrences-append name v (w ∷ vs) = ground (arith, occurrences-append name v vs)

-- A new key is written behind the others.
values-insert_new :
    (slot : ℕ) (v : Bytes) (d : Dict ℕ Bytes)
    → lookup slot d ≡ none
    → values (insert slot v d) ≡ values d ++ v ∷ []
unfolding values insert lookup
values-insert_new slot v [] new = refl
values-insert_new slot v ((j, w) ∷ d) new = elim (Bool-cases (j == slot)) [
  | inl same ↦ absurd (ground arith)
  | inr other ↦
      let rest = values-insert_new slot v d (ground arith) in
      rw (insert, other) (ap (λ (l : List Bytes). w ∷ l) rest)
]

-- Every slot of the map is before `n`.
record IsBefore (n : ℕ) (d : Dict ℕ Bytes) : Type 0 where
  low : (slot : ℕ) (v : Bytes) → lookup slot d ≡ some v → slot < n

IsBefore-new : (n slot : ℕ) (d : Dict ℕ Bytes) → IsBefore n d → n ≤ slot → lookup slot d ≡ none
IsBefore-new n slot d before le = elim (Option-cases (lookup slot d)) [
  | inl new ↦ new
  | inr (v, found) ↦ let lt = before.low slot v found in absurd (omega arith)
]

IsBefore-insert :
    (n slot : ℕ) (v : Bytes) (d : Dict ℕ Bytes)
    → n ≤ slot
    → IsBefore n d
    → IsBefore (suc slot) (insert slot v d)
IsBefore-insert n slot v d le before = record {
  low = λ j w found. elim (Bool-cases (slot == j)) [
    | inl same ↦ let key = (==_iff slot j).0 same in omega arith
    | inr other ↦ let lt = before.low j w (ground (arith, lookup-insert slot j v d)) in omega arith
  ];
}

occurrences-slot_map :
    (name : Bytes) (n : ℕ) (d : Dict ℕ Bytes) (bs : List Block)
    → IsRising n bs
    → IsBefore n d
    → occurrences name (values (slot_map d bs)) ≡ occurrences name (values d) + made_by name bs
unfolding slot_map
occurrences-slot_map name n d [] rising before = omega arith
occurrences-slot_map name n d (b ∷ bs) rising before =
    let new = IsBefore-new n b.slot d before rising.0 in
    let rest =
      occurrences-slot_map name (suc b.slot) (insert b.slot b.validator d) bs rising.1
        (IsBefore-insert n b.slot b.validator d rising.0 before) in
    let last =
      ap (occurrences name) (values-insert_new b.slot b.validator d new)
      ∙ occurrences-append name b.validator (values d) in
    ground (arith, rest, last)

no_slots : IsBefore 0 []
unfolding lookup
no_slots = record { low = λ slot v found. absurd (ground arith) }

-- What a summary says of a validator: how many of the blocks it made, what its statistics say, and what share of both
-- the missed slots are.
abbrev pub IsSummary :
    {F : Type 0} → F → (ℕ → ℕ → F) → List Block → Stats → ValidatorSummary F → Type 0
IsSummary zero_rate rate made all s =
    let stats = get_or (lookup s.name all) zero_stats in
    let total = add_word s.produced s.missed in
    (s.produced ≡ made_by s.name made)
    × (s.missed ≡ stats.missed_slots)
    × (s.miss_rate ≡ (if ltb 0 total then rate s.missed total else zero_rate))
    × (s.slashed ≡ stats.slashed)
    × (s.jailed_until ≡ stats.jailed_until_epoch)

names_order : IsWeakOrder bytes_lt
names_order = record { asymm = bytes_lt_asymm; not_trans = bytes_lt_not_trans }

module _ {F : Type 0} (zero_rate : F) (rate : ℕ → ℕ → F) (bc : Blockchain)
    (rising : IsRising 0 (after_first bc.chain))
    (short : length (after_first bc.chain) < word) where
  summaries-IsSummary :
      (names : List Bytes)
      → let out =
          summaries_of zero_rate rate bc.stats
            (count_produced (values (slot_map [] (after_first bc.chain))) [])
            names in
        All (IsSummary zero_rate rate (after_first bc.chain) bc.stats) out
        × (map (λ (s : ValidatorSummary F). s.name) out ≡ names)
  unfolding summaries_of summary_of
  summaries-IsSummary [] = (tt, refl)
  summaries-IsSummary (name ∷ names) =
      let (rest, same) = summaries-IsSummary names in
      let few = made_by-le name (after_first bc.chain) in
      let nothing : Dict Bytes ℕ = [] in
      let none_yet : get_or (lookup name nothing) 0 ≡ 0 = unfold lookup in refl in
      let no_values : occurrences name (values {K = ℕ} []) ≡ 0 = unfold values in refl in
      let counted = occurrences-slot_map name 0 [] (after_first bc.chain) rising no_slots in
      let produced =
        count_produced_lem (values (slot_map [] (after_first bc.chain))) [] name (omega arith) in
      (((omega arith, refl, refl, refl, refl), rest), ap (λ (l : List Bytes). name ∷ l) same)

  -- GetValidatorSummaries, on an engine whose map of producers is rebuilt from its chain, lists the names of the
  -- registered validators in order. Each entry has the number of blocks of the chain behind the first that the
  -- validator made, its missed slots, their share of both as the rate, whether it was slashed, and until when it is in
  -- jail. Conditions: the slots of these blocks rise, and there are fewer of them than a `uint64` counts.
  pub validator_summaries_lem :
      let out = get_validator_summaries zero_rate rate (rebuild_slot_map bc) in
      let names = map (λ (s : ValidatorSummary F). s.name) out in
      All (IsSummary zero_rate rate (after_first bc.chain) bc.stats) out
      × Perm names (keys bc.validators)
      × IsSorted bytes_lt names
  unfolding get_validator_summaries rebuild_slot_map
  validator_summaries_lem =
      let (all, same) = summaries-IsSummary (sort_slice bytes_lt (keys bc.validators)) in
      (
        all,
        rw same (sort_slice-perm bytes_lt (keys bc.validators)),
        rw same (sort_slice-IsSorted bytes_lt names_order (keys bc.validators)),
      )
