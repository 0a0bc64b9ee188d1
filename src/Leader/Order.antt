-- ===== src/Leader/Order.antt =====
-- LeaderFromSnapshot of consensus/pos.go ranges over a Go map for the total: that the order in
-- which the map gives its entries does not matter.
use mathlib.Core.List.{Perm, Permᴰ}
use mathlib.Core.Logic.{∥∥₁_elim}
use native.Mathlib.Nat.{ℕ_set}
use xenium.Prelude.{
  ℕ, ◌≡◌, refl, sym, ap, ◌∙◌, none, some, List, [], ◌∷◌, arith, ==_iff, if◌then◌else◌, ◌==◌, ◌≢◌,
  nat_beq,
}
use xenium.Prelude.Bytes.{
  Bytes, bytes_lt, bytes_key, bytes_lt_total, bytes_lt_trans, bytes_lt_asymm, bytes_lt_not_trans,
}
use xenium.Prelude.Int.{add_word, to_int, to_uint64}
use xenium.Prelude.Sort.{sort_slice, insert_sorted}
use xenium.Dict.{lookup, keys, values}
use xenium.Crypto.{Crypto}
use xenium.Leader.{
  Stakes, sorted_stake_names, total_from, stake_of, pick, leader_from_snapshot, deterministic_draw,
  genesis_name,
}
use xenium.Leader.Draw.{IsKeyed}

bytes_set : IsSet Bytes
bytes_set = hlevel ℕ_set

insert_sorted_comm :
    (a b : Bytes) (xs : List Bytes)
    → insert_sorted bytes_lt a (insert_sorted bytes_lt b xs)
      ≡ insert_sorted bytes_lt b (insert_sorted bytes_lt a xs)
unfolding insert_sorted
insert_sorted_comm a b [] =
    ground (arith, bytes_lt_total a b, bytes_lt_asymm a b, bytes_lt_asymm b a)
insert_sorted_comm a b (x ∷ xs) = ground (
  arith,
  bytes_lt_total a b,
  bytes_lt_asymm a b,
  bytes_lt_asymm b a,
  bytes_lt_trans x a b,
  bytes_lt_trans x b a,
  bytes_lt_not_trans x a b,
  bytes_lt_not_trans x b a,
  insert_sorted_comm a b xs,
)

sort_slice-permᴰ :
    {xs ys : List Bytes} → Permᴰ xs ys → sort_slice bytes_lt xs ≡ sort_slice bytes_lt ys
unfolding sort_slice
sort_slice-permᴰ Permᴰ.nil = refl
sort_slice-permᴰ (Permᴰ.cons {b = b} e p) = rw (e, sort_slice-permᴰ p) refl
sort_slice-permᴰ (Permᴰ.swap {a = a} {b = b} {l = l} e f) =
    rw⁻¹ (e, f) (insert_sorted_comm a b (sort_slice bytes_lt l))
sort_slice-permᴰ (Permᴰ.trans p q) = sort_slice-permᴰ p ∙ sort_slice-permᴰ q

keys-permᴰ : {d d' : Stakes} → Permᴰ d d' → Permᴰ (keys d) (keys d')
unfolding keys
keys-permᴰ Permᴰ.nil = Permᴰ.nil
keys-permᴰ (Permᴰ.cons {a = (k, v)} {b = (j, w)} e p) = Permᴰ.cons (ap (λ x. x.0) e) (keys-permᴰ p)
keys-permᴰ (Permᴰ.swap {a = (k, v)} {b = (j, w)} {a' = (k', v')} {b' = (j', w')} e f) =
    Permᴰ.swap (ap (λ x. x.0) e) (ap (λ x. x.0) f)
keys-permᴰ (Permᴰ.trans p q) = Permᴰ.trans (keys-permᴰ p) (keys-permᴰ q)

total_from-permᴰ :
    {d d' : Stakes} (acc : ℕ) → Permᴰ d d' → total_from acc (values d) ≡ total_from acc (values d')
unfolding values total_from
total_from-permᴰ acc Permᴰ.nil = refl
total_from-permᴰ acc (Permᴰ.cons {a = (k, v)} {b = (j, w)} e p) =
    let same : v ≡ w = ap (λ x. x.1) e in rw same (total_from-permᴰ (add_word acc w) p)
total_from-permᴰ acc
      (Permᴰ.swap {a = (k, v)} {b = (j, w)} {a' = (k', v')} {b' = (j', w')} {l = l} e f) =
    let first : v ≡ w' = ap (λ x. x.1) e in
    let second : w ≡ v' = ap (λ x. x.1) f in
    let sums : add_word (add_word acc v) w ≡ add_word (add_word acc v') w' = omega arith in
    ap (λ t. total_from t (values l)) sums
total_from-permᴰ acc (Permᴰ.trans p q) = total_from-permᴰ acc p ∙ total_from-permᴰ acc q

-- A keyed snapshot stays so, and says the same of each name.
abbrev SameStakes : Stakes → Stakes → Type 0
SameStakes d d' = IsKeyed d' × ((k : Bytes) → lookup k d ≡ lookup k d')

lookup-permᴰ : {d d' : Stakes} → Permᴰ d d' → IsKeyed d → SameStakes d d'
unfolding lookup
lookup-permᴰ Permᴰ.nil keyed = (tt, λ k. refl)
lookup-permᴰ (Permᴰ.cons {a = (k, v)} {b = (j, w)} e p) keyed =
    let name : k ≡ j = ap (λ x. x.0) e in
    let stake : v ≡ w = ap (λ x. x.1) e in
    let (keyed', same) = lookup-permᴰ p keyed.1 in
    (
      (sym (same j) ∙ rw name at (keyed.0), keyed'),
      λ i. rw (name, stake) (ap (λ t. if j == i then some w else t) (same i)),
    )
lookup-permᴰ (Permᴰ.swap {a = (k, v)} {b = (j, w)} {a' = (k', v')} {b' = (j', w')} {l = l} e f)
      keyed =
    let head : k ≡ j' = ap (λ x. x.0) e in
    let head_stake : v ≡ w' = ap (λ x. x.1) e in
    let next : j ≡ k' = ap (λ x. x.0) f in
    let next_stake : w ≡ v' = ap (λ x. x.1) f in
    let apart : j ≢ k = grind (arith, keyed.0, ==_iff j k) in
    let free : lookup k l ≡ none = grind (arith, keyed.0, ==_iff j k) in
    let free' : lookup k' l ≡ none = rw⁻¹ next (keyed.1.0) in
    let alone : lookup k' ((j', w') ∷ l) ≡ none = grind (arith, ==_iff j' k') in
    ((alone, (rw⁻¹ head free, keyed.1.1)), λ i. grind (arith, ==_iff k i, ==_iff j i))
lookup-permᴰ (Permᴰ.trans p q) keyed =
    let (keyed', same) = lookup-permᴰ p keyed in
    let (keyed'', same') = lookup-permᴰ q keyed' in (keyed'', λ k. same k ∙ same' k)

pick-lookup :
    (d d' : Stakes) (draw running : ℕ) (names : List Bytes)
    → ((k : Bytes) → lookup k d ≡ lookup k d')
    → pick d draw running names ≡ pick d' draw running names
unfolding pick stake_of
pick-lookup d d' draw running [] same = refl
pick-lookup d d' draw running (name ∷ names) same =
    let rest = pick-lookup d d' draw (add_word running (stake_of d' name)) names same in
    rw (same name, rest) refl

leader_from_snapshot-permᴰ :
    (c : Crypto) (slot : ℕ) {d d' : Stakes}
    → IsKeyed d
    → Permᴰ d d'
    → leader_from_snapshot c slot d ≡ leader_from_snapshot c slot d'
unfolding leader_from_snapshot sorted_stake_names
leader_from_snapshot-permᴰ c slot {d} {d'} keyed p =
    let total = total_from 0 (values d') in
    let draw = to_uint64 (deterministic_draw c slot (to_int total)) in
    let (_, same) = lookup-permᴰ p keyed in
    rw (total_from-permᴰ 0 p, sort_slice-permᴰ (keys-permᴰ p))
      (ap (λ t. if nat_beq total 0 then genesis_name else t)
        (pick-lookup d d' draw 0 (sorted_stake_names d') same))

-- All nodes draw the same leader of a slot, in whatever order the map gives the entries of the
-- snapshot. Condition: no name has two entries.
pub leader_from_snapshot-perm :
    (c : Crypto) (slot : ℕ) (d d' : Stakes)
    → IsKeyed d
    → Perm d d'
    → leader_from_snapshot c slot d ≡ leader_from_snapshot c slot d'
leader_from_snapshot-perm c slot d d' keyed p =
    ∥∥₁_elim p (bytes_set _ _) (leader_from_snapshot-permᴰ c slot keyed)
