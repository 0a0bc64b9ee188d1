-- ===== src/Tests/Run.antt =====
-- A run of the engine: a validator joins, and makes three blocks one after another.
use xenium.Prelude.{
  ap, ◌∙◌, ℕ, zero, suc, ◌+◌, ◌%◌, ◌≡◌, refl, true, none, some, [], ◌∷◌, arith, length, get_or,
  get_elem?, is_some, some-get_or, All, ◌<◌,
}
use xenium.Prelude.Bytes.{Bytes, str, bytes_eq, bytes_lt, bytes_key}
use xenium.Prelude.Int.{pos, ◌+ℤ◌, ◌-ℤ◌, to_uint64, to_int, wrap, add_int, sub_int}
use xenium.Dict.{lookup, insert, erase, contains, keys, values}
use xenium.Domain.{Block, ok}
use xenium.Crypto.{Crypto}
use xenium.Ports.{BlockStore}
use xenium.Poh.Verify.{IsDigest}
use xenium.Chain.{Blockchain, ChainConfig}
use xenium.Chain.Setup.{
  new_blockchain, register_validator, with_defaults, seed_of, genesis_draft, create_genesis_block,
  genesis_clock, unbuilt,
}
use xenium.Chain.Blocks.{
  zero_block, Added, add_block, slash_leader, select_txs_for_block, choose_txs, next_turn, draft,
  take_in, save_and_take_in, seal, build,
}
use xenium.Prelude.Sort.{insert_sorted, sort_slice}
use xenium.Text.Digits.{fill, itoa, format_uint, format_int}
use xenium.Text.Hex.{hex_digit, hex_encode, from_hex_digit, hex_decode}
use xenium.Ledger.{
  account, credit, debit, pay_fee, transfer, apply_transaction, apply_from, apply_transactions,
}
use xenium.Stake.{
  ensure_entry, add_validator, reward_validator, slash_validator, slash_validator_percent,
}
use xenium.Poh.{new_poh, slot, poh_hash_hex, parse_poh_hash_hex, hash_poh, hash_poh_seed, tick}
use xenium.Leader.{
  is_jailed, sorted_stake_names, put_uint, read_uint, total_from, stake_of, pick, is_active,
  deterministic_draw, leader_from_snapshot,
}
use xenium.Signing.{
  block_text, tx_text, state_text, hash_block, hash_tx, tx_hashes, tx_root, state_root,
  address_from_pub_key, verify_digest, verify_transaction_signature, sign_block,
  verify_block_signature,
}
use xenium.Mempool.{tx_less, consider, select, start, pop_for_block}
use xenium.Chain.Epoch.{
  epoch_for_slot, include, include_all, new_snapshot, save_snapshot, ensure_snapshot,
  ensure_snapshot_for_slot, snapshot_for_slot, snapshot_stake, leader_for_slot,
}
use xenium.Chain.Walk.{collect, chain_from_tip, collect_known}
use xenium.Chain.Score.{
  better_score, chain_tip_slot, min_delta, weigh, score_tip, active_stake, weight_delta_satisfied,
  weight_delta_required,
}
use xenium.Chain.Rebuild.{
  slot_map, rebuild_slot_map, update_finality, validator_reward_address, replay_blocks,
  rebuild_state_from_canonical, rebuild_canonical_chain,
}
use xenium.Chain.Canonical.{
  diverge, diverge_slot, compute_reorg_depth_and_slot, count_critical, count_error, count_reorg,
  adopt, guard_reorg, choose, update_canonical,
}
use xenium.Chain.Slots.{
  insert_block, ensure_stats, jail_end, handle_equivocation, producers_of, note_producer,
  register_slot_producer, miss, process_slot, process_slots, process_missed_slots,
}
use xenium.Chain.Accept.{
  verify_from, verify_transactions, verify_leader_snapshot, verify_result, verify_content,
  verify_block_on_accept,
}
use xenium.Chain.Growth.Canonical.{IsEngine}
use xenium.Chain.Growth.Runs.{HasTime}
use xenium.Chain.Growth.Start.{new_blockchain-IsEngine}
use xenium.Chain.Growth.Reach.{
  System, Reach, here, next, Step, after, block_added, validator_registered, reachable-IsEngine,
  finalized_forever,
}
use xenium.Poh.{verify_poh, check_hash, replay}
use xenium.Chain.Verify.{
  verify_block_link, verify_validator, is_seen, verify_block_hash, verify_block_sig, verify_change,
  verify_produced, verify_drawn, verify_next, verify_blocks, verify_chain,
}
use xenium.Chain.Recovery.{restore_from_storage}
use xenium.Chain.Recovery.Restored.{restored_chain}
use xenium.Ports.{SnapshotStore}
use xenium.Chain.Verify.Sound.{IsVerified, verify_chain_sound}
use xenium.Chain.Verify.Replay.{rebuild_state-verify_chain}
use xenium.Domain.{Checked, err, empty_chain}
use xenium.Tests.Demo.{alice, key, zeros}

-- A digest of the sum and the length of a text, so that the few texts of the run have different ones.
abbrev pub sum_of : Bytes → ℕ
sum_of [] = 0
sum_of (b ∷ bs) = (b + sum_of bs) % 256

abbrev pub toy : Crypto
toy = record {
  sha256 = λ bs. sum_of bs ∷ length bs % 256 ∷ zeros 30;
  is_point = λ key. true;
  verify_asn1 = λ key digest sig. true;
  sign_asn1 = λ random priv digest. some (48 ∷ 1 ∷ []);
}

abbrev pub config : ChainConfig
config = record {
  max_reorg_depth = pos 2;
  finality_slots = 1;
  min_reorg_weight_delta_p = pos 10;
  epoch_length = 50;
  deterministic_poh = true;
  poh_seed = pos 7;
  max_block_txs = pos 10;
}

-- No block is stored.
abbrev pub no_store : BlockStore (Unit {0})
no_store = record {
  save_block = λ b s. (ok tt, s);
  get_block_by_hash = λ hash s. none;
  get_block_by_height = λ height s. none;
  get_tip = λ s. none;
  get_range = λ first last s. some (ok []);
}

abbrev pub empty : Blockchain
empty = record {
  chain = [];
  blocks = [];
  parents = [];
  canonical_tip = [];
  validators = [];
  stats = [];
  poh = none;
  state = [];
  genesis = [];
  slot_produced = [];
  slot_producers = [];
  equivocations = [];
  last_processed_slot = 0;
  finalized_slot = 0;
  config = config;
  reorg_stats = record { info = 0; warn = 0; error = 0; critical = 0 };
  epochs = record { snapshots = []; current_epoch = 0; saved = none };
  mempool = none;
}

abbrev pub made : Blockchain
made = get_or (new_blockchain toy (λ seed. seed) none config) empty

abbrev pub joined : Blockchain
joined = (register_validator alice (pos 60) (str "04abcd") (some key) made).1

abbrev pub nothing_added : Added (Unit {0})
nothing_added = record { hash = []; outcome = ok tt; engine = empty; stored = none }

abbrev pub state : Blockchain → System (Unit {0})
state bc = record { engine = bc; stored = none }

abbrev pub grow : System (Unit {0}) → Added (Unit {0})
grow s = get_or (add_block toy no_store 5 [] s.engine s.stored) nothing_added

abbrev pub one : Added (Unit {0})
one = grow (state joined)

abbrev pub two : Added (Unit {0})
two = grow (after one)

abbrev pub three : Added (Unit {0})
three = grow (after two)

abbrev third : Block
third = get_or (get_elem? two.engine.chain 2) zero_block

abbrev second : Block
second = get_or (get_elem? two.engine.chain 1) zero_block

abbrev first : Block
first = get_or (get_elem? one.engine.chain 1) zero_block

abbrev checked : Checked × Blockchain
checked = get_or (verify_chain toy one.engine) (err empty_chain, empty)

-- What the run computes: the calls return, the hashes are new, the clock has time, and the second block is final.
pub run_facts :
    (is_some (new_blockchain toy (λ seed. seed) none config) ≡ true)
    × (is_some (add_block toy no_store 5 [] joined none) ≡ true)
    × (is_some (add_block toy no_store 5 [] one.engine one.stored) ≡ true)
    × (is_some (add_block toy no_store 5 [] two.engine two.stored) ≡ true)
    × (lookup one.hash joined.blocks ≡ none)
    × (lookup two.hash one.engine.blocks ≡ none)
    × (lookup three.hash two.engine.blocks ≡ none)
    × HasTime joined
    × HasTime one.engine
    × HasTime two.engine
    × (is_some (get_elem? two.engine.chain 1) ≡ true)
    × (two.engine.finalized_slot ≡ 1)
    × (second.slot ≡ 1)
    × (third.hash ≡ two.engine.canonical_tip)
unfolding bytes_eq bytes_lt ◌+ℤ◌ ◌-ℤ◌ to_uint64 to_int wrap add_int sub_int insert_sorted sort_slice
    lookup insert erase contains keys values fill itoa format_uint format_int hex_digit hex_encode
    from_hex_digit hex_decode account credit debit pay_fee transfer apply_transaction apply_from
    apply_transactions ensure_entry add_validator reward_validator slash_validator
    slash_validator_percent new_poh slot poh_hash_hex parse_poh_hash_hex hash_poh hash_poh_seed tick
    is_jailed sorted_stake_names put_uint read_uint total_from stake_of pick is_active
    deterministic_draw leader_from_snapshot block_text tx_text state_text hash_block hash_tx
    tx_hashes tx_root state_root address_from_pub_key verify_digest verify_transaction_signature
    sign_block verify_block_signature tx_less consider select start pop_for_block epoch_for_slot
    include include_all new_snapshot save_snapshot ensure_snapshot ensure_snapshot_for_slot
    snapshot_for_slot snapshot_stake leader_for_slot collect chain_from_tip collect_known
    better_score chain_tip_slot min_delta weigh score_tip active_stake weight_delta_satisfied
    weight_delta_required slot_map rebuild_slot_map update_finality validator_reward_address
    replay_blocks rebuild_state_from_canonical rebuild_canonical_chain diverge diverge_slot
    compute_reorg_depth_and_slot count_critical count_error count_reorg adopt guard_reorg choose
    update_canonical insert_block ensure_stats jail_end handle_equivocation producers_of
    note_producer register_slot_producer miss process_slot process_slots process_missed_slots
    verify_from verify_transactions verify_leader_snapshot verify_result verify_content
    verify_block_on_accept slash_leader select_txs_for_block choose_txs next_turn draft take_in
    save_and_take_in seal build add_block with_defaults seed_of register_validator genesis_draft
    create_genesis_block genesis_clock unbuilt new_blockchain
run_facts = (
  refl,
  refl,
  refl,
  refl,
  refl,
  refl,
  refl,
  omega arith,
  omega arith,
  omega arith,
  refl,
  refl,
  refl,
  refl,
)

pub made_so : new_blockchain toy (λ seed. seed) none config ≡ some made
made_so = some-get_or (new_blockchain toy (λ seed. seed) none config) empty run_facts.0

zeros-IsByte : (n : ℕ) → All (λ b. b < 256) (zeros n)
zeros-IsByte zero = tt
zeros-IsByte (suc n) = (omega arith, zeros-IsByte n)

sum_of-lt : (bs : Bytes) → sum_of bs < 256
sum_of-lt [] = omega arith
sum_of-lt (b ∷ bs) = omega arith

pub toy-digests : (bs : Bytes) → IsDigest (toy.sha256 bs)
toy-digests bs = record { bytes = (sum_of-lt bs, (omega arith, zeros-IsByte 30)); size = refl }

pub grow-Step :
    (s : System (Unit {0}))
    → is_some (add_block toy no_store 5 [] s.engine s.stored) ≡ true
    → HasTime s.engine
    → lookup (grow s).hash s.engine.blocks ≡ none
    → Step toy no_store s (after (grow s))
grow-Step s returns time fresh =
    block_added s 5 [] (grow s)
      (some-get_or (add_block toy no_store 5 [] s.engine s.stored) nothing_added returns) time fresh

pub two_blocks : Reach toy no_store (state made) (after two)
two_blocks =
    next
      (next (next here (validator_registered (state made) alice (pos 60) (str "04abcd") (some key)))
        (grow-Step (state joined) run_facts.1 run_facts.7 run_facts.4))
      (grow-Step (after one) run_facts.2 run_facts.8 run_facts.5)

pub third_block : Reach toy no_store (after two) (after three)
third_block = next here (grow-Step (after two) run_facts.3 run_facts.9 run_facts.6)

pub engine_of_two : IsEngine two.engine
engine_of_two =
    reachable-IsEngine toy toy-digests no_store (λ seed. seed) none config made none made_so
      two_blocks

reachable-IsEngine_example : IsEngine two.engine
reachable-IsEngine_example =
    reachable-IsEngine toy toy-digests no_store (λ seed. seed) none config made none made_so
      two_blocks

finalized_forever_example : get_elem? three.engine.chain 1 ≡ some second
finalized_forever_example =
    finalized_forever toy toy-digests no_store (λ seed. seed) none config made none made_so
      two_blocks third_block 1 second
      (some-get_or (get_elem? two.engine.chain 1) zero_block run_facts.10)
      (λ e. absurd (omega (arith, run_facts.11, e))) (omega (arith, run_facts.11, run_facts.12))

new_blockchain-IsEngine_example :
    (bc : Blockchain) × (new_blockchain toy (λ seed. seed) none config ≡ some bc)
    × IsEngine bc
    × (length bc.chain ≡ 1)
new_blockchain-IsEngine_example = new_blockchain-IsEngine toy toy-digests (λ seed. seed) none config

-- The chain of two blocks that the first call leaves passes VerifyChain.
check_returns : is_some (verify_chain toy one.engine) ≡ true
unfolding bytes_eq bytes_lt ◌+ℤ◌ ◌-ℤ◌ to_uint64 to_int wrap add_int sub_int insert_sorted sort_slice
    lookup insert erase contains keys values fill itoa format_uint format_int hex_digit hex_encode
    from_hex_digit hex_decode account credit debit pay_fee transfer apply_transaction apply_from
    apply_transactions ensure_entry add_validator reward_validator slash_validator
    slash_validator_percent new_poh slot poh_hash_hex parse_poh_hash_hex hash_poh hash_poh_seed tick
    is_jailed sorted_stake_names put_uint read_uint total_from stake_of pick is_active
    deterministic_draw leader_from_snapshot block_text tx_text state_text hash_block hash_tx
    tx_hashes tx_root state_root address_from_pub_key verify_digest verify_transaction_signature
    sign_block verify_block_signature tx_less consider select start pop_for_block epoch_for_slot
    include include_all new_snapshot save_snapshot ensure_snapshot ensure_snapshot_for_slot
    snapshot_for_slot snapshot_stake leader_for_slot collect chain_from_tip collect_known
    better_score chain_tip_slot min_delta weigh score_tip active_stake weight_delta_satisfied
    weight_delta_required slot_map rebuild_slot_map update_finality validator_reward_address
    replay_blocks rebuild_state_from_canonical rebuild_canonical_chain diverge diverge_slot
    compute_reorg_depth_and_slot count_critical count_error count_reorg adopt guard_reorg choose
    update_canonical insert_block ensure_stats jail_end handle_equivocation producers_of
    note_producer register_slot_producer miss process_slot process_slots process_missed_slots
    verify_from verify_transactions verify_leader_snapshot verify_result verify_content
    verify_block_on_accept slash_leader select_txs_for_block choose_txs next_turn draft take_in
    save_and_take_in seal build add_block with_defaults seed_of register_validator genesis_draft
    create_genesis_block genesis_clock unbuilt new_blockchain verify_block_link verify_validator
    is_seen verify_block_hash verify_block_sig verify_change verify_produced verify_drawn
    verify_next verify_blocks verify_chain verify_poh check_hash replay
check_returns = refl

check_facts :
    (checked.0 ≡ ok tt)
    × (lookup [] one.engine.validators ≡ none)
    × (length one.engine.chain ≡ 2)
    × (get_elem? one.engine.chain 1 ≡ some first)
unfolding bytes_eq bytes_lt ◌+ℤ◌ ◌-ℤ◌ to_uint64 to_int wrap add_int sub_int insert_sorted sort_slice
    lookup insert erase contains keys values fill itoa format_uint format_int hex_digit hex_encode
    from_hex_digit hex_decode account credit debit pay_fee transfer apply_transaction apply_from
    apply_transactions ensure_entry add_validator reward_validator slash_validator
    slash_validator_percent new_poh slot poh_hash_hex parse_poh_hash_hex hash_poh hash_poh_seed tick
    is_jailed sorted_stake_names put_uint read_uint total_from stake_of pick is_active
    deterministic_draw leader_from_snapshot block_text tx_text state_text hash_block hash_tx
    tx_hashes tx_root state_root address_from_pub_key verify_digest verify_transaction_signature
    sign_block verify_block_signature tx_less consider select start pop_for_block epoch_for_slot
    include include_all new_snapshot save_snapshot ensure_snapshot ensure_snapshot_for_slot
    snapshot_for_slot snapshot_stake leader_for_slot collect chain_from_tip collect_known
    better_score chain_tip_slot min_delta weigh score_tip active_stake weight_delta_satisfied
    weight_delta_required slot_map rebuild_slot_map update_finality validator_reward_address
    replay_blocks rebuild_state_from_canonical rebuild_canonical_chain diverge diverge_slot
    compute_reorg_depth_and_slot count_critical count_error count_reorg adopt guard_reorg choose
    update_canonical insert_block ensure_stats jail_end handle_equivocation producers_of
    note_producer register_slot_producer miss process_slot process_slots process_missed_slots
    verify_from verify_transactions verify_leader_snapshot verify_result verify_content
    verify_block_on_accept slash_leader select_txs_for_block choose_txs next_turn draft take_in
    save_and_take_in seal build add_block with_defaults seed_of register_validator genesis_draft
    create_genesis_block genesis_clock unbuilt new_blockchain verify_block_link verify_validator
    is_seen verify_block_hash verify_block_sig verify_change verify_produced verify_drawn
    verify_next verify_blocks verify_chain verify_poh check_hash replay
check_facts = (refl, refl, refl, refl)

chain_checked : verify_chain toy one.engine ≡ some (ok tt, checked.1)
chain_checked =
    some-get_or (verify_chain toy one.engine) (err empty_chain, empty) check_returns
    ∙ ap (λ outcome. some (outcome, checked.1)) check_facts.0

verify_chain_sound_example : IsVerified toy one.engine checked.1
verify_chain_sound_example = verify_chain_sound toy one.engine check_facts.1 chain_checked

rebuild_state-verify_chain_example :
    state_root toy (rebuild_state_from_canonical toy one.engine).state ≡ first.state_root
rebuild_state-verify_chain_example =
    rebuild_state-verify_chain toy one.engine first check_facts.1 chain_checked
      (omega (arith, check_facts.2)) (rw check_facts.2 check_facts.3)

-- A store that has the chain of three blocks, from which a new engine restores.
abbrev full_store : BlockStore (Unit {0})
full_store = record no_store {
  get_tip = λ s. some third;
  get_range = λ first last s. some (ok two.engine.chain);
}

abbrev no_snapshots : SnapshotStore (Unit {0})
no_snapshots = record { load_latest_snapshot = λ t. ok none }

restored_chain_example :
    (bc : Blockchain) × (restore_from_storage toy full_store no_snapshots (some tt) none made
      ≡ some (ok tt, (bc, some tt)))
    × (bc.chain ≡ two.engine.chain)
    × (bc.canonical_tip ≡ two.engine.canonical_tip)
    × (bc.poh ≡ made.poh)
restored_chain_example =
    restored_chain toy full_store no_snapshots two.engine made third tt none engine_of_two refl
      run_facts.13 refl (λ t e. (none, refl))
