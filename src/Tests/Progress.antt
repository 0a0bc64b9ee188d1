-- ===== src/Tests/Progress.antt =====
-- A call of AddBlock on the engine of the run, with a leader who has both keys.
use mathlib.Core.Path.{subst}
use xenium.Prelude.{
  ap, ◌∙◌, sym, ℕ, ◌<◌, ◌≤◌, ◌≡◌, refl, none, some, List, [], ◌∷◌, arith, get_or, All, nat_eq,
}
use xenium.Prelude.Bytes.{Bytes, str, bytes_eq, bytes_lt, bytes_key}
use xenium.Prelude.Int.{pos, ◌+ℤ◌, ◌-ℤ◌, to_uint64, to_int, wrap, add_int, sub_int}
use xenium.Prelude.Int.{word}
use xenium.Dict.{Dict, lookup, insert, erase, contains, keys, values}
use xenium.Domain.{Block, ok}
use xenium.Chain.{Blockchain}
use xenium.Chain.Setup.{
  new_blockchain, register_validator, with_defaults, seed_of, genesis_draft, create_genesis_block,
  genesis_clock, unbuilt,
}
use xenium.Chain.Blocks.{
  zero_block, Added, add_block, slash_leader, select_txs_for_block, choose_txs, next_turn, draft,
  take_in, save_and_take_in, seal, build,
}
use xenium.Prelude.Sort.{insert_sorted, sort_slice}
use xenium.Text.Digits.{fill, itoa, format_uint, format_int}
use xenium.Text.Hex.{hex_digit, hex_encode, from_hex_digit, hex_decode}
use xenium.Ledger.{
  account, credit, debit, pay_fee, transfer, apply_transaction, apply_from, apply_transactions,
}
use xenium.Stake.{
  ensure_entry, add_validator, reward_validator, slash_validator, slash_validator_percent,
}
use xenium.Poh.{new_poh, slot, poh_hash_hex, parse_poh_hash_hex, hash_poh, hash_poh_seed, tick}
use xenium.Leader.{
  is_jailed, sorted_stake_names, put_uint, read_uint, total_from, stake_of, pick, is_active,
  deterministic_draw, leader_from_snapshot,
}
use xenium.Signing.{
  block_text, tx_text, state_text, hash_block, hash_tx, tx_hashes, tx_root, state_root,
  address_from_pub_key, verify_digest, verify_transaction_signature, sign_block,
  verify_block_signature,
}
use xenium.Mempool.{tx_less, consider, select, start, pop_for_block}
use xenium.Chain.Epoch.{
  epoch_for_slot, include, include_all, new_snapshot, save_snapshot, ensure_snapshot,
  ensure_snapshot_for_slot, snapshot_for_slot, snapshot_stake, leader_for_slot,
}
use xenium.Chain.Walk.{collect, chain_from_tip, collect_known}
use xenium.Chain.Score.{
  better_score, chain_tip_slot, min_delta, weigh, score_tip, active_stake, weight_delta_satisfied,
  weight_delta_required,
}
use xenium.Chain.Rebuild.{
  slot_map, rebuild_slot_map, update_finality, validator_reward_address, replay_blocks,
  rebuild_state_from_canonical, rebuild_canonical_chain,
}
use xenium.Chain.Canonical.{
  diverge, diverge_slot, compute_reorg_depth_and_slot, count_critical, count_error, count_reorg,
  adopt, guard_reorg, choose, update_canonical,
}
use xenium.Chain.Slots.{
  insert_block, ensure_stats, jail_end, handle_equivocation, producers_of, note_producer,
  register_slot_producer, miss, process_slot, process_slots, process_missed_slots,
}
use xenium.Chain.Accept.{
  verify_from, verify_transactions, verify_leader_snapshot, verify_result, verify_content,
  verify_block_on_accept,
}
use xenium.Domain.{State, Result, Validator, err}
use xenium.Poh.{Poh}
use xenium.Chain.{Epochs, EpochSnapshot}
use xenium.Chain.Growth.Canonical.{IsEngine}
use xenium.Chain.Growth.Runs.{HasTime}
use xenium.Chain.Growth.Returns.{IsFresh}
use xenium.Chain.Growth.Returned.{add_block_returns}
use xenium.Chain.Growth.Progress.{IsSaving, add_block_succeeds}
use xenium.Chain.Growth.Making.{own_block_is_accepted}
use xenium.Chain.Growth.Frozen.{leader_is_settled}
use xenium.Chain.Growth.Honest.{no_equivocation_in_runs}
use xenium.Chain.Growth.Reach.{Reach, here, next, validator_registered, reachable-IsEngine}
use xenium.Chain.Growth.Moves.{now}
use xenium.Chain.Reports.{ForkCandidate, get_fork_candidates}
use xenium.Chain.Reports.Scored.{IsScored, HasWords, fork_candidates-IsScored}
use xenium.Signing.Transactions.{IsSound}
use xenium.Tests.Demo.{alice, key}
use xenium.Tests.Run.{
  toy, toy-digests, config, made, made_so, no_store, joined, state, two, three, two_blocks,
  third_block, engine_of_two,
}

abbrev clock : Poh
clock = get_or joined.poh (new_poh [])

abbrev prev : Block
prev = get_or (lookup joined.canonical_tip joined.blocks) zero_block

abbrev lead : Validator
lead = record {
  name = alice;
  stake = pos 60;
  pub_key = hex_encode key.public_point;
  priv_key = some key;
  last_slot = 0;
}

abbrev ready : Blockchain
ready = (choose_txs [] (next_turn toy clock joined).producer (next_turn toy clock joined).engine).1

abbrev drafted : Block
drafted = draft toy (next_turn toy clock joined) prev [] joined.state

abbrev signed : Block
signed = record drafted { signature = 48 ∷ 1 ∷ []; hash = hash_block toy drafted }

facts :
    (joined.poh ≡ some clock)
    × (lookup joined.canonical_tip joined.blocks ≡ some prev)
    × ((choose_txs [] (next_turn toy clock joined).producer (next_turn toy clock joined).engine).0
        ≡ [])
    × (apply_transactions ready.state [] (next_turn toy clock joined).producer ≡ ok joined.state)
    × (lookup (next_turn toy clock joined).leader joined.validators ≡ some lead)
    × (lookup signed.hash joined.blocks ≡ none)
    × HasTime joined
unfolding bytes_eq bytes_lt ◌+ℤ◌ ◌-ℤ◌ to_uint64 to_int wrap add_int sub_int insert_sorted sort_slice
    lookup insert erase contains keys values fill itoa format_uint format_int hex_digit hex_encode
    from_hex_digit hex_decode account credit debit pay_fee transfer apply_transaction apply_from
    apply_transactions ensure_entry add_validator reward_validator slash_validator
    slash_validator_percent new_poh slot poh_hash_hex parse_poh_hash_hex hash_poh hash_poh_seed tick
    is_jailed sorted_stake_names put_uint read_uint total_from stake_of pick is_active
    deterministic_draw leader_from_snapshot block_text tx_text state_text hash_block hash_tx
    tx_hashes tx_root state_root address_from_pub_key verify_digest verify_transaction_signature
    sign_block verify_block_signature tx_less consider select start pop_for_block epoch_for_slot
    include include_all new_snapshot save_snapshot ensure_snapshot ensure_snapshot_for_slot
    snapshot_for_slot snapshot_stake leader_for_slot collect chain_from_tip collect_known
    better_score chain_tip_slot min_delta weigh score_tip active_stake weight_delta_satisfied
    weight_delta_required slot_map rebuild_slot_map update_finality validator_reward_address
    replay_blocks rebuild_state_from_canonical rebuild_canonical_chain diverge diverge_slot
    compute_reorg_depth_and_slot count_critical count_error count_reorg adopt guard_reorg choose
    update_canonical insert_block ensure_stats jail_end handle_equivocation producers_of
    note_producer register_slot_producer miss process_slot process_slots process_missed_slots
    verify_from verify_transactions verify_leader_snapshot verify_result verify_content
    verify_block_on_accept slash_leader select_txs_for_block choose_txs next_turn draft take_in
    save_and_take_in seal build add_block with_defaults seed_of register_validator genesis_draft
    create_genesis_block genesis_clock unbuilt new_blockchain
facts = (refl, refl, refl, refl, refl, refl, omega arith)

run_joined : Reach toy no_store (state made) (state joined)
run_joined = next here (validator_registered (state made) alice (pos 60) (str "04abcd") (some key))

engine_of_joined : IsEngine joined
engine_of_joined =
    reachable-IsEngine toy toy-digests no_store (λ seed. seed) none config made none made_so
      run_joined

toy-IsSound : IsSound toy key
toy-IsSound = record {
  digest = toy-digests;
  point = refl;
  point_bytes = omega arith;
  point_some = λ e. cc;
  sig_bytes = λ random d sig h.
      let same : 48 ∷ 1 ∷ [] ≡ sig = cc in subst (All (λ b. b < 256)) same (omega arith);
  sig_some = λ random d sig h e. cc;
  verified = λ random d sig h. refl;
}

no_store-IsSaving : IsSaving no_store
no_store-IsSaving = record { saves = λ b s. refl }

signed_so : sign_block toy 5 (some key) drafted ≡ ok signed
unfolding sign_block
signed_so = refl

none_to_check : verify_transactions toy [] ≡ ok tt
unfolding verify_transactions verify_from
none_to_check = refl

chosen_none :
    (choose_txs [] (next_turn toy clock joined).producer (next_turn toy clock joined).engine).0 ≡ []
chosen_none = facts.2

add_block_succeeds_example :
    (r : Added (Unit {0})) × (add_block toy no_store 5 [] joined none ≡ some r)
    × (r.hash ≡ signed.hash)
    × (lookup signed.hash r.engine.blocks ≡ some signed)
    × (r.outcome ≡ ok tt)
add_block_succeeds_example =
    add_block_succeeds toy no_store no_store-IsSaving (λ seed. seed) none config made none made_so
      run_joined 5 [] clock prev lead key joined.state signed facts.6 facts.0 facts.1 toy-IsSound
      (rw chosen_none none_to_check) (rw chosen_none facts.3) facts.4 refl refl
      (rw chosen_none signed_so) facts.5

same_parts :
    (ready.epochs ≡ (next_turn toy clock joined).engine.epochs)
    × (ready.config ≡ joined.config)
    × (ready.validators ≡ joined.validators)
unfolding bytes_eq bytes_lt ◌+ℤ◌ ◌-ℤ◌ to_uint64 to_int wrap add_int sub_int insert_sorted sort_slice
    lookup insert erase contains keys values fill itoa format_uint format_int hex_digit hex_encode
    from_hex_digit hex_decode account credit debit pay_fee transfer apply_transaction apply_from
    apply_transactions ensure_entry add_validator reward_validator slash_validator
    slash_validator_percent new_poh slot poh_hash_hex parse_poh_hash_hex hash_poh hash_poh_seed tick
    is_jailed sorted_stake_names put_uint read_uint total_from stake_of pick is_active
    deterministic_draw leader_from_snapshot block_text tx_text state_text hash_block hash_tx
    tx_hashes tx_root state_root address_from_pub_key verify_digest verify_transaction_signature
    sign_block verify_block_signature tx_less consider select start pop_for_block epoch_for_slot
    include include_all new_snapshot save_snapshot ensure_snapshot ensure_snapshot_for_slot
    snapshot_for_slot snapshot_stake leader_for_slot collect chain_from_tip collect_known
    better_score chain_tip_slot min_delta weigh score_tip active_stake weight_delta_satisfied
    weight_delta_required slot_map rebuild_slot_map update_finality validator_reward_address
    replay_blocks rebuild_state_from_canonical rebuild_canonical_chain diverge diverge_slot
    compute_reorg_depth_and_slot count_critical count_error count_reorg adopt guard_reorg choose
    update_canonical insert_block ensure_stats jail_end handle_equivocation producers_of
    note_producer register_slot_producer miss process_slot process_slots process_missed_slots
    verify_from verify_transactions verify_leader_snapshot verify_result verify_content
    verify_block_on_accept slash_leader select_txs_for_block choose_txs next_turn draft take_in
    save_and_take_in seal build add_block with_defaults seed_of register_validator genesis_draft
    create_genesis_block genesis_clock unbuilt new_blockchain
same_parts = (refl, refl, refl)

idle : apply_transactions joined.state [] (next_turn toy clock joined).producer ≡ ok joined.state
unfolding apply_transactions apply_from
idle = refl

own_block_is_accepted_example :
    (verify_block_on_accept toy prev signed joined.state ready).0 ≡ ok tt
own_block_is_accepted_example =
    own_block_is_accepted toy clock joined ready prev [] joined.state joined.state 5 key lead signed
      toy-IsSound same_parts.0 same_parts.1 same_parts.2 none_to_check idle facts.4 refl signed_so

abbrev IsFreshFor : Poh → Block → Type 0
IsFreshFor k p =
    let turn = next_turn toy k joined in
    let (chosen, after) = choose_txs [] turn.producer turn.engine in
    IsFresh toy turn p after.state chosen joined

fresh : IsFreshFor clock prev
fresh left applied =
    let same : joined.state ≡ left =
      ap (λ (r : Result State). elim r [ ok s ↦ s | err e ↦ [] ]) (sym applied_here ∙ applied) in
    rw (← same, chosen_none) facts.5
  where
    applied_here :
        apply_transactions ready.state
          (choose_txs []
            (next_turn toy clock joined).producer
            (next_turn toy clock joined).engine).0
          (next_turn toy clock joined).producer
        ≡ ok joined.state
    applied_here = rw chosen_none facts.3

add_block_returns_example :
    (r : Added (Unit {0})) × (add_block toy no_store 5 [] joined none ≡ some r)
add_block_returns_example =
    add_block_returns toy toy-digests no_store 5 [] joined none engine_of_joined facts.6
      (λ k p running tip.
        subst (λ q. IsFreshFor k q) (ap (λ o. get_or o zero_block) (sym facts.1 ∙ tip))
          (subst (λ j. IsFreshFor j prev) (ap (λ o. get_or o (new_poh [])) (sym facts.0 ∙ running))
            fresh))

abbrev made_snapshot : EpochSnapshot
made_snapshot = record { epoch = 0; total_stake = 60; validators = (alice, 60) ∷ [] }

snapshot_facts :
    (two.engine.epochs.snapshots ≡ (0, made_snapshot) ∷ [])
    × (lookup (epoch_for_slot two.engine.config 5) two.engine.epochs.snapshots ≡ some made_snapshot)
unfolding bytes_eq bytes_lt ◌+ℤ◌ ◌-ℤ◌ to_uint64 to_int wrap add_int sub_int insert_sorted sort_slice
    lookup insert erase contains keys values fill itoa format_uint format_int hex_digit hex_encode
    from_hex_digit hex_decode account credit debit pay_fee transfer apply_transaction apply_from
    apply_transactions ensure_entry add_validator reward_validator slash_validator
    slash_validator_percent new_poh slot poh_hash_hex parse_poh_hash_hex hash_poh hash_poh_seed tick
    is_jailed sorted_stake_names put_uint read_uint total_from stake_of pick is_active
    deterministic_draw leader_from_snapshot block_text tx_text state_text hash_block hash_tx
    tx_hashes tx_root state_root address_from_pub_key verify_digest verify_transaction_signature
    sign_block verify_block_signature tx_less consider select start pop_for_block epoch_for_slot
    include include_all new_snapshot save_snapshot ensure_snapshot ensure_snapshot_for_slot
    snapshot_for_slot snapshot_stake leader_for_slot collect chain_from_tip collect_known
    better_score chain_tip_slot min_delta weigh score_tip active_stake weight_delta_satisfied
    weight_delta_required slot_map rebuild_slot_map update_finality validator_reward_address
    replay_blocks rebuild_state_from_canonical rebuild_canonical_chain diverge diverge_slot
    compute_reorg_depth_and_slot count_critical count_error count_reorg adopt guard_reorg choose
    update_canonical insert_block ensure_stats jail_end handle_equivocation producers_of
    note_producer register_slot_producer miss process_slot process_slots process_missed_slots
    verify_from verify_transactions verify_leader_snapshot verify_result verify_content
    verify_block_on_accept slash_leader select_txs_for_block choose_txs next_turn draft take_in
    save_and_take_in seal build add_block with_defaults seed_of register_validator genesis_draft
    create_genesis_block genesis_clock unbuilt new_blockchain
snapshot_facts = (refl, refl)

leader_is_settled_example :
    ((snapshot_for_slot toy three.engine 5 three.engine.epochs).0 ≡ some made_snapshot)
    × ((leader_for_slot toy three.engine 5 three.engine.epochs).0
        ≡ (leader_for_slot toy two.engine 5 two.engine.epochs).0)
leader_is_settled_example =
    leader_is_settled toy no_store third_block 5 made_snapshot snapshot_facts.1

no_equivocation_in_runs_example :
    (two.engine.equivocations ≡ [])
    × ((at : ℕ) (producers : Dict Bytes Bytes)
        → lookup at two.engine.slot_producers ≡ some producers
        → at ≤ now two.engine)
no_equivocation_in_runs_example =
    no_equivocation_in_runs toy no_store (λ seed. seed) none config made none made_so two_blocks

two-HasWords : HasWords two.engine
two-HasWords = record {
  at = λ epoch s found name.
      small epoch s (subst (λ d. lookup epoch d ≡ some s) snapshot_facts.0 found) name;
}
  where
    small :
        (epoch : ℕ) (s : EpochSnapshot)
        → lookup epoch ((0, made_snapshot) ∷ []) ≡ some s
        → (name : Bytes) → stake_of s.validators name < word
    small epoch s found name =
        let same : s ≡ made_snapshot = unfold lookup in ground arith in
        rw same (unfold stake_of lookup in ground arith)

fork_candidates-IsScored_example :
    (out : List ForkCandidate) × (e : Epochs) × (get_fork_candidates toy two.engine ≡ some (out, e))
    × All (IsScored toy two.engine) out
fork_candidates-IsScored_example =
    fork_candidates-IsScored toy two.engine engine_of_two two-HasWords
