-- ===== src/Tests/Node.antt =====
-- A node that starts in a new directory, makes a block, for which it saves the snapshot of its epoch there, and is
-- started again.
use xenium.Prelude.{
  nat_beq, is_some, ◌≢◌, ◌∙◌, if◌then◌else◌, ap, sym, ◌≡◌, refl, true, none, some, Option, List, [],
  ◌∷◌, arith, get_or, get_elem?, length, All, nat_eq,
}
use mathlib.Core.Path.{subst}
use xenium.Prelude.Bytes.{Bytes, str, bytes_eq, bytes_lt, bytes_key}
use xenium.Prelude.Int.{pos, ◌+ℤ◌, ◌-ℤ◌, to_uint64, to_int, wrap, add_int, sub_int}
use xenium.Dict.{lookup, insert, erase, contains, keys, values, lookup-insert_ne, lookup-erase_ne}
use xenium.Domain.{Block, ok, err}
use xenium.Chain.Setup.{
  set_storage, new_blockchain, register_validator, with_defaults, seed_of, genesis_draft,
  create_genesis_block, genesis_clock, unbuilt,
}
use xenium.Chain.Blocks.{
  zero_block, add_block, slash_leader, select_txs_for_block, choose_txs, next_turn, draft, take_in,
  save_and_take_in, seal, build,
}
use xenium.Prelude.Sort.{insert_sorted, sort_slice}
use xenium.Text.Digits.{fill, itoa, format_uint, format_int}
use xenium.Text.Hex.{hex_digit, hex_encode, from_hex_digit, hex_decode}
use xenium.Ledger.{
  account, credit, debit, pay_fee, transfer, apply_transaction, apply_from, apply_transactions,
}
use xenium.Stake.{
  ensure_entry, add_validator, reward_validator, slash_validator, slash_validator_percent,
}
use xenium.Poh.{new_poh, slot, poh_hash_hex, parse_poh_hash_hex, hash_poh, hash_poh_seed, tick}
use xenium.Leader.{
  is_jailed, sorted_stake_names, put_uint, read_uint, total_from, stake_of, pick, is_active,
  deterministic_draw, leader_from_snapshot,
}
use xenium.Signing.{
  block_text, tx_text, state_text, hash_block, hash_tx, tx_hashes, tx_root, state_root,
  address_from_pub_key, verify_digest, verify_transaction_signature, sign_block,
  verify_block_signature,
}
use xenium.Mempool.{tx_less, consider, select, start, pop_for_block}
use xenium.Chain.Epoch.{
  epoch_for_slot, include, include_all, new_snapshot, save_snapshot, ensure_snapshot,
  ensure_snapshot_for_slot, snapshot_for_slot, snapshot_stake, leader_for_slot,
}
use xenium.Chain.Walk.{collect, chain_from_tip, collect_known}
use xenium.Chain.Score.{
  better_score, chain_tip_slot, min_delta, weigh, score_tip, active_stake, weight_delta_satisfied,
  weight_delta_required,
}
use xenium.Chain.Rebuild.{
  slot_map, rebuild_slot_map, update_finality, validator_reward_address, replay_blocks,
  rebuild_state_from_canonical, rebuild_canonical_chain,
}
use xenium.Chain.Canonical.{
  diverge, diverge_slot, compute_reorg_depth_and_slot, count_critical, count_error, count_reorg,
  adopt, guard_reorg, choose, update_canonical,
}
use xenium.Chain.Slots.{
  insert_block, ensure_stats, jail_end, handle_equivocation, producers_of, note_producer,
  register_slot_producer, miss, process_slot, process_slots, process_missed_slots,
}
use xenium.Chain.Accept.{
  verify_from, verify_transactions, verify_leader_snapshot, verify_result, verify_content,
  verify_block_on_accept,
}
use xenium.Storage.{
  Json, FileBlockStore, empty_store, save_block, append_block, note_block, write_index,
  replace_file,
}
use xenium.Storage.Disk.{IsStorable, IsJson}
use xenium.Storage.Restart.{Saves, none_more, one_more}
use xenium.Storage.Linear.{IsCounted}
use xenium.Storage.Snapshots.{
  new_file_snapshot_store, save_epoch_snapshot, snapshot_name, load_latest_snapshot,
  load_snapshot_file, latest_of,
}
use xenium.Storage.Snapshots.Beside.{IsBeside, IsConfined}
use xenium.App.Session.{Saves-write_snapshots}
use xenium.Prelude.Utf8.{is_utf8, IsUtf8}
use xenium.Ports.{LatestSnapshot}
use xenium.Chain.{Blockchain, SavedSnapshot}
use xenium.Chain.Growth.Reach.{next, validator_registered, storage_set}
use xenium.Chain.Blocks.{Added, zero_block}
use xenium.Tests.Demo.{alice, key}
use xenium.Tests.Snapshots.{scan_epoch}
use xenium.App.{Config, Node, new_node, write_snapshots}
use xenium.App.Restart.{node_restart}
use xenium.Chain.Growth.Canonical.{IsEngine}
use xenium.Chain.Growth.Runs.{HasTime}
use xenium.Chain.Growth.Reach.{here, reachable-IsEngine}
use xenium.Tests.Run.{toy, toy-digests, config, made, made_so, no_store, joined, grow, grow-Step}
use xenium.Tests.Disk.{
  Files, move, os, view, dir, json, json-IsJson, os-IsReadable, os-IsWriting, dir-HasPaths,
}

abbrev given : Blockchain
given = set_storage (some []) joined

abbrev worked : Added (Unit {0})
worked = grow (record { engine = given; stored = none })

abbrev genesis : Block
genesis = get_or (get_elem? worked.engine.chain 0) zero_block

abbrev first : Block
first = get_or (get_elem? worked.engine.chain 1) zero_block

-- The call of the snapshot store that the engine made.
abbrev call : SavedSnapshot
call =
    get_or (get_elem? (get_or worked.engine.epochs.saved []) 0)
      (record { epoch = 0; state_root = []; validator_set = [] })

-- A JSON that knows the two blocks.
abbrev codec : Json
codec = record json {
  marshal_block = λ b. ok (if nat_beq b.index 0 then str "g" else str "f");
  unmarshal_block = λ text. ok (if bytes_eq text (str "g") then genesis else first);
}

codec-IsJson : IsJson codec
codec-IsJson = record { index_back = json-IsJson.index_back }

facts :
    (worked.engine.chain ≡ genesis ∷ first ∷ [])
    × (genesis.index ≡ 0)
    × (first.index ≡ 1)
    × (worked.engine.epochs.saved ≡ some (call ∷ []))
    × (call.epoch ≡ 0)
    × (is_some (add_block toy no_store 5 [] given none) ≡ true)
    × HasTime given
    × (lookup worked.hash given.blocks ≡ none)
    × IsUtf8 genesis.hash
    × IsUtf8 first.hash
unfolding bytes_eq bytes_lt ◌+ℤ◌ ◌-ℤ◌ to_uint64 to_int wrap add_int sub_int insert_sorted sort_slice
    lookup insert erase contains keys values fill itoa format_uint format_int hex_digit hex_encode
    from_hex_digit hex_decode account credit debit pay_fee transfer apply_transaction apply_from
    apply_transactions ensure_entry add_validator reward_validator slash_validator
    slash_validator_percent new_poh slot poh_hash_hex parse_poh_hash_hex hash_poh hash_poh_seed tick
    is_jailed sorted_stake_names put_uint read_uint total_from stake_of pick is_active
    deterministic_draw leader_from_snapshot block_text tx_text state_text hash_block hash_tx
    tx_hashes tx_root state_root address_from_pub_key verify_digest verify_transaction_signature
    sign_block verify_block_signature tx_less consider select start pop_for_block epoch_for_slot
    include include_all new_snapshot save_snapshot ensure_snapshot ensure_snapshot_for_slot
    snapshot_for_slot snapshot_stake leader_for_slot collect chain_from_tip collect_known
    better_score chain_tip_slot min_delta weigh score_tip active_stake weight_delta_satisfied
    weight_delta_required slot_map rebuild_slot_map update_finality validator_reward_address
    replay_blocks rebuild_state_from_canonical rebuild_canonical_chain diverge diverge_slot
    compute_reorg_depth_and_slot count_critical count_error count_reorg adopt guard_reorg choose
    update_canonical insert_block ensure_stats jail_end handle_equivocation producers_of
    note_producer register_slot_producer miss process_slot process_slots process_missed_slots
    verify_from verify_transactions verify_leader_snapshot verify_result verify_content
    verify_block_on_accept slash_leader select_txs_for_block choose_txs next_turn draft take_in
    save_and_take_in seal build add_block with_defaults seed_of register_validator genesis_draft
    create_genesis_block genesis_clock unbuilt new_blockchain set_storage is_utf8
facts = (refl, refl, refl, refl, refl, refl, omega arith, refl, refl, refl)

engine_of_worked : IsEngine worked.engine
engine_of_worked =
    reachable-IsEngine toy toy-digests no_store (λ seed. seed) none config made none made_so
      (next
        (next
          (next here (
            validator_registered (record { engine = made; stored = none }) alice (pos 60)
              (str "04abcd") (some key)))
          (storage_set (record { engine = joined; stored = none }) none (some [])))
        (grow-Step (record { engine = given; stored = none }) facts.5 facts.6 facts.7))

genesis-IsStorable : IsStorable codec genesis
unfolding bytes_eq
genesis-IsStorable = record {
  line = str "g";
  written = ap (λ n. ok (if nat_beq n 0 then str "g" else str "f")) facts.1;
  read = refl;
  as_line = record { one_line = ground arith; fits = omega arith };
  hash_text = facts.8;
}

first-IsStorable : IsStorable codec first
unfolding bytes_eq
first-IsStorable = record {
  line = str "f";
  written = ap (λ n. ok (if nat_beq n 0 then str "g" else str "f")) facts.2;
  read = refl;
  as_line = record { one_line = ground arith; fits = omega arith };
  hash_text = facts.9;
}

abbrev snap_dir : Bytes
snap_dir = os.join dir (str "snapshots")

abbrev begun : FileBlockStore × Files
begun = (save_block os codec genesis (empty_store os dir, [])).1

abbrev noted : Files
noted = write_snapshots os codec snap_dir (get_or worked.engine.epochs.saved []) begun.1

abbrev saved : FileBlockStore × Files
saved = (save_block os codec first (begun.0, noted)).1

abbrev latest : Option LatestSnapshot
latest = elim (load_latest_snapshot os codec scan_epoch snap_dir saved.1) [
  | ok found ↦ found
  | err e ↦ none
]

disk_facts :
    (save_block os codec genesis (empty_store os dir, []) ≡ (ok tt, begun))
    × (save_block os codec first (begun.0, noted) ≡ (ok tt, saved))
    × (new_file_snapshot_store os codec dir saved.1 ≡ (ok snap_dir, saved.1))
    × (load_latest_snapshot os codec scan_epoch snap_dir saved.1 ≡ ok latest)
    × (snapshot_name call.epoch ≡ str "epoch_0.json")
unfolding bytes_eq bytes_lt ◌+ℤ◌ ◌-ℤ◌ to_uint64 to_int wrap add_int sub_int insert_sorted sort_slice
    lookup insert erase contains keys values fill itoa format_uint format_int hex_digit hex_encode
    from_hex_digit hex_decode account credit debit pay_fee transfer apply_transaction apply_from
    apply_transactions ensure_entry add_validator reward_validator slash_validator
    slash_validator_percent new_poh slot poh_hash_hex parse_poh_hash_hex hash_poh hash_poh_seed tick
    is_jailed sorted_stake_names put_uint read_uint total_from stake_of pick is_active
    deterministic_draw leader_from_snapshot block_text tx_text state_text hash_block hash_tx
    tx_hashes tx_root state_root address_from_pub_key verify_digest verify_transaction_signature
    sign_block verify_block_signature tx_less consider select start pop_for_block epoch_for_slot
    include include_all new_snapshot save_snapshot ensure_snapshot ensure_snapshot_for_slot
    snapshot_for_slot snapshot_stake leader_for_slot collect chain_from_tip collect_known
    better_score chain_tip_slot min_delta weigh score_tip active_stake weight_delta_satisfied
    weight_delta_required slot_map rebuild_slot_map update_finality validator_reward_address
    replay_blocks rebuild_state_from_canonical rebuild_canonical_chain diverge diverge_slot
    compute_reorg_depth_and_slot count_critical count_error count_reorg adopt guard_reorg choose
    update_canonical insert_block ensure_stats jail_end handle_equivocation producers_of
    note_producer register_slot_producer miss process_slot process_slots process_missed_slots
    verify_from verify_transactions verify_leader_snapshot verify_result verify_content
    verify_block_on_accept slash_leader select_txs_for_block choose_txs next_turn draft take_in
    save_and_take_in seal build add_block with_defaults seed_of register_validator genesis_draft
    create_genesis_block genesis_clock unbuilt new_blockchain set_storage save_block append_block
    note_block write_index replace_file save_epoch_snapshot snapshot_name new_file_snapshot_store
    load_latest_snapshot load_snapshot_file latest_of write_snapshots
disk_facts = (refl, refl, refl, refl, refl)

moved_others :
    (found : Option Bytes) (p p' : Bytes) (s : Files) (q : Bytes)
    → p ≢ q
    → p' ≢ q
    → view (move found p p' s).1 q ≡ view s q
moved_others none p p' s q far near = refl
moved_others (some text) p p' s q far near =
    lookup-insert_ne p' q text (erase p s) near ∙ lookup-erase_ne p q s far

os-IsConfined : IsConfined os codec view dir snap_dir
os-IsConfined = record {
  written = λ p text s q far. lookup-insert_ne p q text s far;
  moved = λ p p' s q far near. moved_others (lookup p s) p p' s q far near;
}

snapshot-IsBeside : IsBeside os codec view dir snap_dir call.epoch
snapshot-IsBeside =
    let name = disk_facts.4 in
    record {
      blocks = rw name (λ e. cc);
      index = rw name (λ e. cc);
      tmp_blocks = rw name (λ e. cc);
      tmp_index = rw name (λ e. cc);
    }

abbrev settings : Config
settings = record { chain = config; data_dir = dir }

node_restart_example :
    (node : Node) × (new_node toy os codec scan_epoch (λ seed. seed) none settings saved.1
      ≡ some (ok node, saved.1))
    × (node.chain.chain ≡ worked.engine.chain)
    × (node.chain.canonical_tip ≡ worked.engine.canonical_tip)
node_restart_example =
    let chain = sym facts.0 in
    node_restart toy toy-digests os codec scan_epoch view dir worked.engine [] [] saved.1 saved.1
      saved.1 saved.0 snap_dir latest (λ seed. seed) none settings engine_of_worked
      (subst (IsCounted 0) chain (facts.1, (facts.2, tt)))
      (omega (arith, ap (λ (bs : List Block). length bs) chain)) dir-HasPaths os-IsWriting
      codec-IsJson refl (unfold lookup in refl) (unfold lookup in refl)
      (subst (All (IsStorable codec)) chain (genesis-IsStorable, (first-IsStorable, tt)))
      (subst (λ bs. Saves os codec view dir (empty_store os dir) [] bs saved.0 saved.1) chain
        (one_more disk_facts.0 (
          Saves-write_snapshots os codec view dir snap_dir os-IsConfined
            (get_or worked.engine.epochs.saved []) begun.1
            (subst
              (λ calls.
                All (λ call. IsBeside os codec view dir snap_dir call.epoch) (get_or calls []))
              (sym facts.3) (snapshot-IsBeside, tt))
            (one_more disk_facts.1 none_more))))
      refl (os-IsReadable []) (os-IsReadable saved.1) disk_facts.2 disk_facts.3 refl
