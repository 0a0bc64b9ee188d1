-- ===== src/Tests/Chain.antt =====
-- A chain of three blocks, and a rival of its last one.
use xenium.Prelude.{
  ℕ, ◌≡◌, ◌<◌, ◌⊎◌, refl, inl, inr, Bool, true, false, none, some, [], ◌∷◌, arith, get_last?,
  length, All, map,
}
use xenium.Prelude.Bytes.{Bytes, str, bytes_eq, bytes_lt, bytes_key}
use mathlib.Core.List.{Perm}
use xenium.Prelude.Sort.{IsSorted}
use xenium.Chain.Reports.Summaries.{
  ValidatorSummary, IsRising, IsSummary, get_validator_summaries, validator_summaries_lem,
}
use xenium.Prelude.Int.{pos, to_uint64, word}
use xenium.Dict.{lookup, insert, contains, keys, values}
use xenium.Domain.{Block, Validator, ok}
use xenium.Chain.{Blockchain, ChainScore, EpochSnapshot, genesis_mark}
use xenium.Chain.Walk.{Blocks, chain_from_tip, collect}
use xenium.Chain.Walk.Linked.{IsLinked, first_prev, chain_from_tip-IsLinked}
use xenium.Chain.Walk.Total.{IsRanked}
use xenium.Chain.Score.{
  better_score, score_tip, weigh, active_stake, chain_tip_slot, min_delta, weight_delta_required,
  weight_delta_satisfied,
}
use xenium.Chain.Epoch.{
  snapshot_stake, snapshot_for_slot, ensure_snapshot, epoch_for_slot, new_snapshot, include_all,
  include, save_snapshot,
}
use xenium.Chain.Rebuild.{
  rebuild_slot_map, rebuild_state_from_canonical, replay_blocks, slot_map, update_finality,
  validator_reward_address, after_first,
}
use xenium.Leader.{stake_of, is_active, is_jailed}
use xenium.Ledger.{apply_transactions, apply_from}
use xenium.Chain.Canonical.{
  update_canonical, choose, adopt, compute_reorg_depth_and_slot, count_reorg, diverge, diverge_slot,
  guard_reorg,
}
use xenium.Chain.Canonical.Guards.{IsKept, Wins, update_canonical_cases}
use xenium.Chain.Canonical.Finality.{Shares, IsAscending, deep_blocks_stay}
use xenium.Chain.Canonical.Total.{update_canonical_total}
use xenium.Tests.Demo.{alice, bob, demo, accounts}

abbrev block : ℕ → Bytes → ℕ → Bytes → ℕ → Block
block index prev_hash slot validator name = record {
  index = index;
  prev_hash = prev_hash;
  slot = slot;
  tick = 20;
  validator = validator;
  tx_root = [];
  state_root = [];
  poh_hash = [];
  signature = [];
  hash = name ∷ [];
  transactions = [];
}

abbrev root : Block
root = block 0 genesis_mark 0 (str "genesis") 0

abbrev pub middle : Block
middle = block 1 (0 ∷ []) 1 alice 1

abbrev last : Block
last = block 2 (1 ∷ []) 2 bob 2

abbrev pub rival : Block
rival = block 2 (1 ∷ []) 2 alice 3

abbrev all : Blocks
all = (0 ∷ [], root) ∷ (1 ∷ [], middle) ∷ (2 ∷ [], last) ∷ (3 ∷ [], rival) ∷ []

abbrev pub validator : Bytes → ℕ → Validator
validator name stake = record {
  name = name;
  stake = pos stake;
  pub_key = [];
  priv_key = none;
  last_slot = 0;
}

abbrev next : EpochSnapshot
next = record { epoch = 1; total_stake = 60; validators = (alice, 60) ∷ [] }

abbrev pub engine : Blockchain
engine = record {
  chain = root ∷ middle ∷ last ∷ [];
  blocks = all;
  parents = [];
  canonical_tip = 2 ∷ [];
  validators = (alice, validator alice 60) ∷ (bob, validator bob 40) ∷ [];
  stats = [];
  poh = none;
  state = accounts;
  genesis = accounts;
  slot_produced = (1, alice) ∷ (2, bob) ∷ [];
  slot_producers = [];
  equivocations = [];
  last_processed_slot = 2;
  finalized_slot = 1;
  config = record {
    max_reorg_depth = pos 1;
    finality_slots = 1;
    min_reorg_weight_delta_p = pos 10;
    epoch_length = 50;
    deterministic_poh = true;
    poh_seed = pos 0;
    max_block_txs = pos 10;
  };
  reorg_stats = record { info = 0; warn = 0; error = 0; critical = 0 };
  epochs = record { snapshots = (1, next) ∷ []; current_epoch = 1; saved = none };
  mempool = none;
}

abbrev snapshot : EpochSnapshot
snapshot = record { epoch = 0; total_stake = 100; validators = (alice, 60) ∷ (bob, 40) ∷ [] }

abbrev switched : Blockchain
switched = record engine {
  chain = root ∷ middle ∷ rival ∷ [];
  canonical_tip = 3 ∷ [];
  slot_produced = (1, alice) ∷ (2, alice) ∷ [];
  reorg_stats = record { info = 1; warn = 0; error = 0; critical = 0 };
  epochs = record { snapshots = (1, next) ∷ (0, snapshot) ∷ []; current_epoch = 0; saved = none };
}

switches : update_canonical demo (3 ∷ []) engine ≡ some (true, switched)
unfolding update_canonical bytes_eq score_tip lookup weigh choose better_score snapshot_stake
    snapshot_for_slot ensure_snapshot contains insert epoch_for_slot stake_of new_snapshot
    include_all values include adopt compute_reorg_depth_and_slot count_reorg diverge diverge_slot
    guard_reorg save_snapshot rebuild_slot_map rebuild_state_from_canonical replay_blocks slot_map
    update_finality validator_reward_address active_stake chain_tip_slot min_delta
    weight_delta_required weight_delta_satisfied chain_from_tip collect is_active is_jailed
    apply_transactions apply_from to_uint64
switches = refl

engine-IsAscending : IsAscending engine.chain
engine-IsAscending = ((omega arith, (omega arith, tt)), ((omega arith, tt), (tt, tt)))

deep_blocks_stay_example : Shares switched.chain 1 middle
deep_blocks_stay_example =
    deep_blocks_stay demo (3 ∷ []) engine 1 (λ e. cc) refl switches 1 middle (omega arith) refl

update_canonical_cases_example :
    ((true ≡ false) × IsKept engine switched)
    ⊎ ((true ≡ true) × (switched.canonical_tip ≡ 3 ∷ []) × Wins demo (3 ∷ []) engine switched.chain)
update_canonical_cases_example = update_canonical_cases demo (3 ∷ []) engine (λ e. cc) switches

chain_walks : chain_from_tip all (3 ∷ []) ≡ some (ok switched.chain)
unfolding chain_from_tip collect lookup bytes_eq
chain_walks = refl

chain_from_tip-IsLinked_example :
    IsLinked all switched.chain
    × (first_prev switched.chain ≡ some genesis_mark)
    × (get_last? switched.chain ≡ lookup (3 ∷ []) all)
chain_from_tip-IsLinked_example = chain_from_tip-IsLinked all (3 ∷ []) chain_walks

all_cases :
    (hash : Bytes) (b : Block)
    → lookup hash all ≡ some b
    → (b ≡ root) ⊎ ((b ≡ middle) ⊎ ((b ≡ last) ⊎ (b ≡ rival)))
unfolding lookup
all_cases hash b found = ground arith

below : (b p : Block) → lookup b.prev_hash all ≡ some p → b ≡ root → p.index < b.index
unfolding lookup bytes_eq
below b p parent same = let none-some : none ≡ some p = rw same at parent in cc

above_root :
    (b p : Block)
    → b.prev_hash ≡ 0 ∷ []
    → b.index ≡ 1
    → lookup b.prev_hash all ≡ some p
    → p.index < b.index
unfolding lookup bytes_eq
above_root b p prev at parent =
    let found : some root ≡ some p = rw prev at parent in
    let same : root ≡ p = cc in rw (← same, at) (omega arith)

above_middle :
    (b p : Block)
    → b.prev_hash ≡ 1 ∷ []
    → b.index ≡ 2
    → lookup b.prev_hash all ≡ some p
    → p.index < b.index
unfolding lookup bytes_eq
above_middle b p prev at parent =
    let found : some middle ≡ some p = rw prev at parent in
    let same : middle ≡ p = cc in rw (← same, at) (omega arith)

all-IsRanked : IsRanked all
all-IsRanked = record {
  at = λ hash b p found parent. elim (all_cases hash b found) [
    | inl e ↦ below b p parent e
    | inr (inl e) ↦ above_root b p (rw e refl) (rw e refl) parent
    | inr (inr (inl e)) ↦ above_middle b p (rw e refl) (rw e refl) parent
    | inr (inr (inr e)) ↦ above_middle b p (rw e refl) (rw e refl) parent
  ];
}

update_canonical_total_example :
    (r : Bool × Blockchain) × (update_canonical demo (3 ∷ []) engine ≡ some r)
update_canonical_total_example = update_canonical_total demo engine all-IsRanked (3 ∷ [])

abbrev score : ℕ → ℕ → ℕ → ChainScore
score slot weight name = record { slot = slot; cumulative_weight = weight; hash = name ∷ [] }

abbrev first_number : ℕ → ℕ → ℕ
first_number m n = m

rising : IsRising 0 (after_first engine.chain)
rising = (omega arith, (omega arith, tt))

few_blocks : length (after_first engine.chain) < word
few_blocks = omega arith

validator_summaries_lem_example :
    All
      (IsSummary 0 first_number (after_first engine.chain) engine.stats)
      (get_validator_summaries 0 first_number (rebuild_slot_map engine))
    × Perm
        (map
          (λ (s : ValidatorSummary ℕ). s.name)
          (get_validator_summaries 0 first_number (rebuild_slot_map engine)))
        (keys engine.validators)
    × IsSorted bytes_lt (
        map
          (λ (s : ValidatorSummary ℕ). s.name)
          (get_validator_summaries 0 first_number (rebuild_slot_map engine)))
validator_summaries_lem_example = validator_summaries_lem 0 first_number engine rising few_blocks
