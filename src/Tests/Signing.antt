-- ===== src/Tests/Signing.antt =====
-- A transaction and a block that are signed with one key.
use xenium.Prelude.{◌≡◌, refl, some, [], ◌∷◌, arith}
use xenium.Prelude.Bytes.{Bytes}
use xenium.Domain.{Block, Transaction, ok}
use xenium.Signing.{
  sign_transaction, verify_transaction_signature, sign_block, hash_tx, hash_block,
  address_from_pub_key,
}
use xenium.Signing.Transactions.{
  IsSound, IsBound, verify-sign_transaction, verify_transaction_signature_sound,
}
use xenium.Text.Hex.{hex_encode, hex_decode, from_hex_digit, hex_digit}
use xenium.Tests.Demo.{demo, key, pay, bob}
use xenium.Tests.Poh.{demo-digests, block}

pub demo-IsSound : IsSound demo key
demo-IsSound = record {
  digest = demo-digests;
  point = refl;
  point_bytes = (omega arith, (omega arith, (omega arith, tt)));
  point_some = λ e. cc;
  sig_bytes = λ random d sig e.
      let same : 48 ∷ 1 ∷ [] ≡ sig = cc in rw (← same) (omega arith, (omega arith, tt));
  sig_some = λ random d sig e. λ none_there. cc;
  verified = λ random d sig e. refl;
}

abbrev tx : Transaction
tx = pay bob bob 3 1 1

abbrev pub addr : Bytes
addr = hex_encode (demo.sha256 key.public_point)

abbrev sent : Transaction
sent = record tx { pub_key = hex_encode key.public_point; from = addr }

abbrev pub signed : Transaction
signed = record sent { hash = hex_encode (hash_tx demo sent); signature = hex_encode (48 ∷ 1 ∷ []) }

tx_signs : sign_transaction demo 5 key tx ≡ ok signed
unfolding sign_transaction address_from_pub_key hex_decode hex_encode from_hex_digit hex_digit
tx_signs = refl

verify-sign_transaction_example : verify_transaction_signature demo signed ≡ ok tt
verify-sign_transaction_example = verify-sign_transaction demo key demo-IsSound 5 tx signed tx_signs

verify_transaction_signature_sound_example : IsBound demo signed
verify_transaction_signature_sound_example =
    verify_transaction_signature_sound demo signed verify-sign_transaction_example

abbrev sealed : Block
sealed = record block { signature = 48 ∷ 1 ∷ []; hash = hash_block demo block }

block_signs : sign_block demo 5 (some key) block ≡ ok sealed
unfolding sign_block
block_signs = refl
