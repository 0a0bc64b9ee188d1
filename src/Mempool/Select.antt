-- ===== src/Mempool/Select.antt =====
-- PopForBlock of core/mempool.go: the variables of its loop.
use mathlib.Core.List.{Perm, perm_middle, append_assoc, append-nil}
use mathlib.Core.List.Perm
use xenium.Prelude.{
  ◌≡◌, ◌≢◌, refl, sym, ◌∙◌, false, some, List, [], ◌∷◌, ◌++◌, arith, All, All-mid, ◌⊎◌, All-drop,
  length, length-append, Bool-cases, inl, inr,
}
use xenium.Prelude.Bytes.{Bytes, bytes_key}
use xenium.Prelude.Int.{ℤ, pos, ◌≤ℤ◌, leb_ℤ}
use xenium.Prelude.Sort.{IsSorted}
use xenium.Dict.{Dict, lookup, erase, lookup-erase_ne}
use xenium.Domain.{State, Transaction, ok, Result-cases}
use xenium.Ledger.{apply_from, apply_transactions}
use xenium.Mempool.{Mempool, Selection, consider, select, start, pop_for_block, tx_less}
use xenium.Mempool.Order.{IsQueue, IsValid, Distinct}
use xenium.Ledger.Batches.{apply_transactions-append}

IsSorted-drop :
    (xs : List Transaction) (y : Transaction) (ys : List Transaction)
    → IsSorted tx_less (xs ++ y ∷ ys)
    → IsSorted tx_less (xs ++ ys)
IsSorted-drop [] y ys s = s.1
IsSorted-drop (x ∷ xs) y ys s = (All-drop _ xs y ys s.0, IsSorted-drop xs y ys s.1)

Distinct-drop :
    (xs : List Transaction) (y : Transaction) (ys : List Transaction)
    → Distinct (xs ++ y ∷ ys)
    → All (λ t. t.hash ≢ y.hash) (xs ++ ys) × Distinct (xs ++ ys)
Distinct-drop [] y ys d = d
Distinct-drop (x ∷ xs) y ys d =
    let (apart, rest) = Distinct-drop xs y ys d.1 in
    (
      (λ e. All-mid (λ t. t.hash ≢ x.hash) xs y ys d.0 (sym e), apart),
      (All-drop _ xs y ys d.0, rest),
    )

still_indexed :
    (d : Dict Bytes Transaction) (y : Transaction) (xs : List Transaction)
    → All (λ t. t.hash ≢ y.hash) xs
    → All (λ t. lookup t.hash d ≡ some t) xs
    → All (λ t. lookup t.hash (erase y.hash d) ≡ some t) xs
still_indexed d y [] apart found = tt
still_indexed d y (x ∷ xs) apart found = (
  lookup-erase_ne y.hash x.hash d (λ e. apart.0 (sym e)) ∙ found.0,
  still_indexed d y xs apart.1 found.1,
)

module _ (max : ℤ) (producer : Bytes) where
  consider_cases :
      (s : Selection) (tx : Transaction)
      → ((consider max producer s tx) ≡ record s { remaining = s.remaining ++ tx ∷ [] })
        ⊎ ((applied : State) × (leb_ℤ max (pos (length s.out)) ≡ false)
            × (apply_transactions s.next_state (tx ∷ []) producer ≡ ok applied)
            × (consider max producer s tx ≡ record s {
              out = s.out ++ tx ∷ [];
              next_state = applied;
              by_hash = erase tx.hash s.by_hash;
            }))
  unfolding consider
  consider_cases s tx = elim (Result-cases (apply_transactions s.next_state (tx ∷ []) producer)) [
    | inl (applied, e) ↦ elim (Bool-cases (leb_ℤ max (pos (length s.out)))) [
      | inl full ↦ inl (ground arith)
      | inr room ↦ inr (applied, room, e, ground arith)
    ]
    | inr (failed, e) ↦ inl (ground arith)
  ]

  -- What holds in the loop, with the transactions that are still to be considered.
  record Holds (m : Mempool) (state : State) (s : Selection) (rest : List Transaction)
      : Type 0 where
    applied : apply_transactions state s.out producer ≡ ok s.next_state
    bounded : pos (length s.out) ≤ℤ max
    kept : Perm (s.out ++ (s.remaining ++ rest)) m.list
    queue : IsQueue s.by_hash (s.remaining ++ rest)

  IsQueue-drop :
      (d : Dict Bytes Transaction) (xs : List Transaction) (y : Transaction) (ys : List Transaction)
      → IsQueue d (xs ++ y ∷ ys)
      → IsQueue (erase y.hash d) (xs ++ ys)
  IsQueue-drop d xs y ys q =
      let (apart, distinct) = Distinct-drop xs y ys q.distinct in
      record {
        sorted = IsSorted-drop xs y ys q.sorted;
        distinct = distinct;
        indexed = still_indexed d y (xs ++ ys) apart (All-drop _ xs y ys q.indexed);
      }

  consider-Holds :
      (m : Mempool) (state : State) (s : Selection) (tx : Transaction) (rest : List Transaction)
      → Holds m state s (tx ∷ rest)
      → Holds m state (consider max producer s tx) rest
  consider-Holds m state s tx rest h = elim (consider_cases s tx) [
    | inl left ↦ rw left (record {
      applied = h.applied;
      bounded = h.bounded;
      kept = rw (append_assoc s.remaining (tx ∷ []) rest) h.kept;
      queue = rw (append_assoc s.remaining (tx ∷ []) rest) h.queue;
    })
    | inr (applied, room, e, taken) ↦ rw taken (record {
      applied = apply_transactions-append producer s.out (tx ∷ []) state h.applied e;
      bounded = let grown = length-append s.out (tx ∷ []) in ground (arith, grown);
      kept =
          rw (append_assoc s.out (tx ∷ []) (s.remaining ++ rest))
            (Perm.trans (Perm.append_left s.out (Perm.symm (perm_middle s.remaining rest))) h.kept);
      queue = IsQueue-drop s.by_hash s.remaining tx rest h.queue;
    })
  ]

  select-Holds :
      (m : Mempool) (state : State) (s : Selection) (rest : List Transaction)
      → Holds m state s rest
      → Holds m state (select max producer s rest) []
  unfolding select
  select-Holds m state s [] h = h
  select-Holds m state s (tx ∷ rest) h =
      select-Holds m state (consider max producer s tx) rest (consider-Holds m state s tx rest h)

-- The transactions that are handed out can be applied to the state in the order in which they are
-- handed out, are none or at most as many as asked for, and together with those that stay are those of the
-- pool; the pool that stays is in order, with every hash once and indexed. Condition: the pool was
-- so before.
pub pop_for_block_lem :
    (m : Mempool) (state : State) (max : ℤ) (producer : Bytes)
    → IsValid m
    → let (m', out) = pop_for_block m state max producer in
      ((next : State) × (apply_transactions state out producer ≡ ok next))
      × ((out ≡ []) ⊎ (pos (length out) ≤ℤ max))
      × Perm (out ++ m'.list) m.list
      × IsValid m'
unfolding pop_for_block
pop_for_block_lem m state max producer v = elim (Bool-cases (leb_ℤ max (pos 0))) [
  | inl nothing ↦ rw (nothing, pop_for_block) ((state, apply_none), inl refl, Perm.refl m.list, v)
  | inr some_wanted ↦
      let s = select max producer (start m state) m.list in
      let done = select-Holds max producer m state (start m state) m.list (first some_wanted) in
      rw (some_wanted, pop_for_block)
        (
          (s.next_state, done.applied),
          inr done.bounded,
          rw (append-nil s.remaining) at done.kept,
          rw (append-nil s.remaining) at done.queue,
        )
]
  where
    apply_none : apply_transactions state [] producer ≡ ok state
    apply_none = unfold apply_transactions apply_from in refl

    first : leb_ℤ max (pos 0) ≡ false → Holds max producer m state (start m state) m.list
    first wanted =
        unfold start in
        record { applied = apply_none; bounded = ground arith; kept = Perm.refl m.list; queue = v }
