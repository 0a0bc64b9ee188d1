-- ===== src/Tests/Accept.antt =====
-- A block with one transaction, sealed by the leader of its slot.
use xenium.Prelude.{◌≡◌, refl, [], ◌∷◌}
use xenium.Prelude.Bytes.{str, bytes_eq, bytes_lt, bytes_key}
use xenium.Prelude.Int.{pos, add_int, sub_int, to_int, to_uint64, wrap, ◌+ℤ◌, ◌-ℤ◌}
use xenium.Dict.{lookup, insert, contains, values, keys}
use xenium.Domain.{Block, State, ok}
use xenium.Signing.{
  tx_root, state_root, hash_block, address_from_pub_key, block_text, hash_tx, state_text, tx_hashes,
  tx_text, verify_block_signature, verify_digest, verify_transaction_signature,
}
use xenium.Chain.{Blockchain}
use xenium.Chain.Accept.{
  verify_block_on_accept, verify_content, verify_leader_snapshot, verify_from, verify_result,
  verify_transactions,
}
use xenium.Chain.Accept.Sound.{IsAccepted, verify_block_on_accept_sound}
use xenium.Chain.Epoch.{
  snapshot_for_slot, ensure_snapshot, epoch_for_slot, new_snapshot, include_all, include,
  save_snapshot,
}
use xenium.Leader.{
  leader_from_snapshot, total_from, is_active, is_jailed, deterministic_draw, pick, put_uint,
  read_uint, sorted_stake_names, stake_of,
}
use xenium.Chain.Rebuild.{validator_reward_address}
use xenium.Ledger.{
  account, apply_from, apply_transaction, apply_transactions, credit, debit, pay_fee, transfer,
}
use xenium.Prelude.Sort.{insert_sorted, sort_slice}
use xenium.Text.Digits.{fill, format_int, format_uint}
use xenium.Text.Hex.{from_hex_digit, hex_decode, hex_digit, hex_encode}
use xenium.Tests.Demo.{alice, bob, demo}
use xenium.Tests.Chain.{engine, middle, rival, validator}
use xenium.Tests.Signing.{addr, signed}

abbrev before : State
before = (addr, record { balance = pos 50; nonce = 0 }) ∷ []

abbrev next : State
next =
    (addr, record { balance = pos 47; nonce = 1 })
    ∷ (bob, record { balance = pos 3; nonce = 0 })
    ∷ []

abbrev draft : Block
draft = record rival {
  tx_root = tx_root demo (signed ∷ []);
  state_root = state_root demo next;
  transactions = signed ∷ [];
  signature = 48 ∷ 1 ∷ [];
}

abbrev full : Block
full = record draft { hash = hash_block demo draft }

abbrev host : Blockchain
host = record engine {
  validators =
      (alice, record (validator alice 60) { pub_key = str "04abcd" })
      ∷ (bob, validator bob 40)
      ∷ [];
}

full_passes : (verify_block_on_accept demo middle full before host).0 ≡ ok tt
unfolding verify_block_on_accept bytes_eq bytes_lt lookup insert hash_block state_root tx_root
    snapshot_for_slot ensure_snapshot epoch_for_slot new_snapshot include_all include save_snapshot
    contains values keys verify_content verify_leader_snapshot verify_from verify_result
    verify_transactions leader_from_snapshot total_from is_active is_jailed deterministic_draw pick
    put_uint read_uint sorted_stake_names stake_of validator_reward_address account apply_from
    apply_transaction apply_transactions credit debit pay_fee transfer add_int sub_int to_int
    to_uint64 wrap ◌+ℤ◌ ◌-ℤ◌ insert_sorted sort_slice address_from_pub_key block_text hash_tx
    state_text tx_hashes tx_text verify_block_signature verify_digest verify_transaction_signature
    fill format_int format_uint from_hex_digit hex_decode hex_digit hex_encode
full_passes = refl

verify_block_on_accept_sound_example : IsAccepted demo middle full before host
verify_block_on_accept_sound_example =
    verify_block_on_accept_sound demo middle full before host full_passes
