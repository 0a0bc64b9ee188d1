-- ===== src/Tests/Leader.antt =====
-- A snapshot of two validators.
use xenium.Prelude.{◌≡◌, ◌<◌, refl, [], ◌∷◌, arith}
use xenium.Prelude.Bytes.{bytes_eq, bytes_lt, bytes_key}
use xenium.Prelude.Int.{word}
use xenium.Prelude.Sort.{sort_slice, insert_sorted}
use xenium.Dict.{lookup, keys, values}
use xenium.Leader.{Stakes, stake_of, leader_from_snapshot, sorted_stake_names, read_uint, put_uint}
use mathlib.Core.List.Perm
use xenium.Leader.Order.{leader_from_snapshot-perm}
use xenium.Leader.Draw.{IsKeyed, total_stake, leader_has_stake, leader_of_draw}
use xenium.Tests.Demo.{alice, bob, demo}

abbrev stakes : Stakes
stakes = (bob, 90) ∷ (alice, 10) ∷ []

stakes-IsKeyed : IsKeyed stakes
unfolding lookup bytes_eq
stakes-IsKeyed = (refl, (refl, tt))

stakes-room : total_stake stakes < word
unfolding values
stakes-room = omega arith

leader_has_stake_example : 0 < stake_of stakes (leader_from_snapshot demo 3 stakes)
leader_has_stake_example =
    leader_has_stake demo 3 stakes stakes-IsKeyed stakes-room (unfold values in omega arith)

leader_of_draw_example : leader_from_snapshot demo 3 stakes ≡ alice
leader_of_draw_example =
    leader_of_draw demo 3 stakes stakes-IsKeyed stakes-room [] alice (bob ∷ [])
      (unfold sorted_stake_names sort_slice insert_sorted keys bytes_lt in refl) (omega arith)
      (unfold read_uint put_uint stake_of lookup bytes_eq values in omega arith)

abbrev stakes' : Stakes
stakes' = (alice, 10) ∷ (bob, 90) ∷ []

leader_from_snapshot-perm_example :
    leader_from_snapshot demo 3 stakes ≡ leader_from_snapshot demo 3 stakes'
leader_from_snapshot-perm_example =
    leader_from_snapshot-perm demo 3 stakes stakes' stakes-IsKeyed
      (Perm.swap (alice, 10) (bob, 90) [])
