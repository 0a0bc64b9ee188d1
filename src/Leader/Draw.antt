-- ===== src/Leader/Draw.antt =====
-- LeaderFromSnapshot of consensus/pos.go: the draw, and the interval of each name.
use mathlib.Core.List.{Permᴰ}
use mathlib.Core.Logic.{∥∥₁_elim}
use native.Mathlib.Nat.{ℕ_set}
use xenium.Prelude.{
  nat_beq, false, ℕ, ◌+◌, ◌≤◌, ◌<◌, ◌%◌, ◌≡◌, ◌≢◌, refl, ap, ◌∙◌, none, List, [], ◌∷◌, ◌++◌, arith,
  ==_iff, All, take,
}
use xenium.Prelude.Bytes.{Bytes, bytes_lt, bytes_key}
use xenium.Prelude.Int.{word, to_int, to_uint64}
use xenium.Prelude.Sort.{sort_slice-perm}
use xenium.Dict.{lookup, keys, values}
use xenium.Crypto.{Crypto}
use xenium.Leader.{
  Stakes, sorted_stake_names, put_uint, read_uint, total_from, stake_of, pick, deterministic_draw,
  leader_from_snapshot,
}

-- The exact sum of the stakes of some names.
abbrev pub names_sum : Stakes → List Bytes → ℕ
names_sum stakes [] = 0
names_sum stakes (name ∷ names) = stake_of stakes name + names_sum stakes names

-- No name has two entries, as in every Go map.
abbrev pub IsKeyed : Stakes → Type 0
IsKeyed [] = Unit
IsKeyed ((k, v) ∷ d) = (lookup k d ≡ none) × IsKeyed d

abbrev sum : List ℕ → ℕ
sum [] = 0
sum (x ∷ xs) = x + sum xs

total_from_exact : (acc : ℕ) (xs : List ℕ) → acc + sum xs < word → total_from acc xs ≡ acc + sum xs
unfolding total_from
total_from_exact acc [] h = omega arith
total_from_exact acc (x ∷ xs) h =
    let exact : (acc + x) % word ≡ acc + x = omega arith in
    rw (total_from, exact) (omega (arith, total_from_exact (acc + x) xs))

to_uint64-to_int : (n : ℕ) → n < word → to_uint64 (to_int n) ≡ n
unfolding to_uint64 to_int
to_uint64-to_int n h = ground arith

module _ (stakes : Stakes) where
  names_sum-permᴰ : {xs ys : List Bytes} → Permᴰ xs ys → names_sum stakes xs ≡ names_sum stakes ys
  names_sum-permᴰ Permᴰ.nil = refl
  names_sum-permᴰ (Permᴰ.cons e p) = omega (arith, ap (stake_of stakes) e, names_sum-permᴰ p)
  names_sum-permᴰ (Permᴰ.swap e f) = omega (arith, ap (stake_of stakes) e, ap (stake_of stakes) f)
  names_sum-permᴰ (Permᴰ.trans p q) = names_sum-permᴰ p ∙ names_sum-permᴰ q

  names_sum-append :
      (xs ys : List Bytes) → names_sum stakes (xs ++ ys) ≡ names_sum stakes xs + names_sum stakes ys
  names_sum-append [] ys = omega arith
  names_sum-append (x ∷ xs) ys = omega (arith, names_sum-append xs ys)

  -- The draws that pick a name are those of the interval behind the names before it.
  pub pick_interval :
      (d r : ℕ) (pre : List Bytes) (name : Bytes) (post : List Bytes)
      → r + names_sum stakes pre ≤ d
      → d < r + names_sum stakes pre + stake_of stakes name
      → r + names_sum stakes pre + stake_of stakes name < word
      → pick stakes d r (pre ++ name ∷ post) ≡ name
  unfolding pick
  pick_interval d r [] name post low high room = ground arith
  pick_interval d r (x ∷ pre) name post low high room =
      let exact : (r + stake_of stakes x) % word ≡ r + stake_of stakes x = omega arith in
      ground (arith, exact, pick_interval d (r + stake_of stakes x) pre name post)

  pick_has_stake :
      (d r : ℕ) (names : List Bytes)
      → r ≤ d
      → d < r + names_sum stakes names
      → r + names_sum stakes names < word
      → 0 < stake_of stakes (pick stakes d r names)
  unfolding pick
  pick_has_stake d r [] low high room = absurd (omega arith)
  pick_has_stake d r (x ∷ names) low high room =
      let exact : (r + stake_of stakes x) % word ≡ r + stake_of stakes x = omega arith in
      ground (arith, exact, pick_has_stake d (r + stake_of stakes x) names)

stake_of-cons_ne :
    (k : Bytes) (v : ℕ) (d : Stakes) (names : List Bytes)
    → All (λ j. k ≢ j) names
    → names_sum ((k, v) ∷ d) names ≡ names_sum d names
unfolding stake_of lookup
stake_of-cons_ne k v d [] h = refl
stake_of-cons_ne k v d (j ∷ names) h =
    let apart = h.0 in ground (arith, ==_iff k j, stake_of-cons_ne k v d names h.1)

keys-ne : (k : Bytes) (d : Stakes) → lookup k d ≡ none → All (λ j. k ≢ j) (keys d)
unfolding lookup keys
keys-ne k [] h = tt
keys-ne k ((j, v) ∷ d) h = (λ e. grind (arith, ==_iff j k), keys-ne k d (grind (arith, ==_iff j k)))

names_sum-keys : (d : Stakes) → IsKeyed d → names_sum d (keys d) ≡ sum (values d)
unfolding keys values
names_sum-keys [] h = refl
names_sum-keys ((k, v) ∷ d) h =
    let own : stake_of ((k, v) ∷ d) k ≡ v = unfold stake_of lookup in ground (arith, ==_iff k k) in
    omega (arith, stake_of-cons_ne k v d (keys d) (keys-ne k d h.0), names_sum-keys d h.1)

-- The exact total of a snapshot.
abbrev pub total_stake : Stakes → ℕ
total_stake d = sum (values d)

names_sum-sorted : (d : Stakes) → IsKeyed d → names_sum d (sorted_stake_names d) ≡ total_stake d
unfolding sorted_stake_names
names_sum-sorted d h =
    ∥∥₁_elim (sort_slice-perm bytes_lt (keys d)) (ℕ_set _ _) (names_sum-permᴰ d)
    ∙ names_sum-keys d h

module _ (c : Crypto) (slot : ℕ) (stakes : Stakes) (keyed : IsKeyed stakes)
    (room : total_stake stakes < word) where
  -- The number that is drawn for the slot.
  abbrev pub draw : ℕ
  draw = read_uint (take 8 (c.sha256 (put_uint 8 slot))) % total_stake stakes

  leader_from_snapshot_lem :
      0 < total_stake stakes
      → leader_from_snapshot c slot stakes ≡ pick stakes draw 0 (sorted_stake_names stakes)
  unfolding leader_from_snapshot deterministic_draw
  leader_from_snapshot_lem some_stake =
      let exact : total_from 0 (values stakes) ≡ total_stake stakes =
        total_from_exact 0 (values stakes) (omega arith) ∙ omega arith in
      let inner = to_uint64-to_int (total_stake stakes) room in
      let outer = to_uint64-to_int draw (omega arith) in
      let counted : nat_beq (total_stake stakes) 0 ≡ false = ground arith in
      rw (leader_from_snapshot, exact, counted, deterministic_draw, inner, outer)

  -- If any stake is in the snapshot, the leader holds stake in it. Conditions: no name has two
  -- entries, and the total fits a `uint64`.
  pub leader_has_stake :
      0 < total_stake stakes → 0 < stake_of stakes (leader_from_snapshot c slot stakes)
  leader_has_stake some_stake =
      let sums = names_sum-sorted stakes keyed in
      rw (leader_from_snapshot_lem some_stake) (
        pick_has_stake stakes draw 0 (sorted_stake_names stakes) (omega arith) (omega arith)
          (omega arith))

  -- A name leads if the draw is at least the stakes of the names before it in the sorted snapshot,
  -- and passes them by less than its own stake. Conditions: no name has two entries, and the total
  -- fits a `uint64`.
  pub leader_of_draw :
      (pre : List Bytes) (name : Bytes) (post : List Bytes)
      → sorted_stake_names stakes ≡ pre ++ name ∷ post
      → names_sum stakes pre ≤ draw
      → draw < names_sum stakes pre + stake_of stakes name
      → leader_from_snapshot c slot stakes ≡ name
  leader_of_draw pre name post sorted low high =
      let sums : names_sum stakes (pre ++ name ∷ post) ≡ total_stake stakes =
        rw sorted at (names_sum-sorted stakes keyed) in
      let parts = names_sum-append stakes pre (name ∷ post) in
      rw (leader_from_snapshot_lem (omega arith), sorted)
        (pick_interval stakes draw 0 pre name post (omega arith) (omega arith) (omega arith))
