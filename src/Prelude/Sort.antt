-- ===== src/Prelude/Sort.antt =====
-- Go's `sort.Slice` and `sort.Strings`. The package leaves the order of elements that compare equal
-- open; an insertion sort is one of the results that it allows, and for strings the only one.
use mathlib.Core.Path.{◌≡◌}
use mathlib.Core.Bool.{Bool, true, false}
use mathlib.Core.List.{List, [], ◌∷◌, Perm}
use mathlib.Core.List.Perm
use mathlib.Core.Logic.{inl, inr}
use xenium.Prelude.Tests.{if◌then◌else◌, Bool-cases}
use xenium.Prelude.Lists.{All}

-- What `sort.Slice` asks of its comparison.
pub record IsWeakOrder {ℓ} {A : Type ℓ} (less : A → A → Bool) : Type ℓ where
  pub asymm : (a b : A) → less a b ≡ true → less b a ≡ false
  pub not_trans : (a b c : A) → less a b ≡ false → less b c ≡ false → less a c ≡ false

module _ {ℓ} {A : Type ℓ} where
  unfoldable pub insert_sorted : (A → A → Bool) → A → List A → List A
  insert_sorted less a [] = a ∷ []
  insert_sorted less a (x ∷ xs) = if less x a then x ∷ insert_sorted less a xs else a ∷ x ∷ xs

  unfoldable pub sort_slice : (A → A → Bool) → List A → List A
  unfolding insert_sorted
  sort_slice less [] = []
  sort_slice less (x ∷ xs) = insert_sorted less x (sort_slice less xs)

  -- No element is less than one before it.
  abbrev pub IsSorted : (A → A → Bool) → List A → Type ℓ
  IsSorted less [] = Unit
  IsSorted less (x ∷ xs) = All (λ y. less y x ≡ false) xs × IsSorted less xs

module _ {ℓ} {A : Type ℓ} (less : A → A → Bool) where
  pub insert_sorted-perm : (a : A) (xs : List A) → Perm (insert_sorted less a xs) (a ∷ xs)
  unfolding insert_sorted
  insert_sorted-perm a [] = Perm.refl (a ∷ [])
  insert_sorted-perm a (x ∷ xs) = elim (Bool-cases (less x a)) [
    | inl e ↦ rw e (Perm.trans (Perm.cons x (insert_sorted-perm a xs)) (Perm.swap a x xs))
    | inr e ↦ rw e (Perm.refl (a ∷ x ∷ xs))
  ]

  pub sort_slice-perm : (xs : List A) → Perm (sort_slice less xs) xs
  unfolding sort_slice
  sort_slice-perm [] = Perm.refl []
  sort_slice-perm (x ∷ xs) =
      Perm.trans (insert_sorted-perm x (sort_slice less xs)) (Perm.cons x (sort_slice-perm xs))

  pub All-insert_sorted {κ} :
      (P : A → Type κ) (a : A) (xs : List A) → P a → All P xs → All P (insert_sorted less a xs)
  unfolding insert_sorted
  All-insert_sorted P a [] pa ps = (pa, tt)
  All-insert_sorted P a (x ∷ xs) pa ps = elim (Bool-cases (less x a)) [
    | inl e ↦ rw e (ps.0, All-insert_sorted P a xs pa ps.1)
    | inr e ↦ rw e (pa, ps)
  ]

  pub All-sort_slice {κ} : (P : A → Type κ) (xs : List A) → All P xs → All P (sort_slice less xs)
  unfolding sort_slice
  All-sort_slice P [] ps = tt
  All-sort_slice P (x ∷ xs) ps =
      All-insert_sorted P x (sort_slice less xs) ps.0 (All-sort_slice P xs ps.1)

  module _ (order : IsWeakOrder less) where
    below :
        (a x : A) (xs : List A)
        → less x a ≡ false
        → All (λ y. less y x ≡ false) xs
        → All (λ y. less y a ≡ false) xs
    below a x [] h ps = tt
    below a x (y ∷ ys) h ps = (order.not_trans y x a ps.0 h, below a x ys h ps.1)

    pub insert_sorted-IsSorted :
        (a : A) (xs : List A) → IsSorted less xs → IsSorted less (insert_sorted less a xs)
    unfolding insert_sorted
    insert_sorted-IsSorted a [] s = (tt, tt)
    insert_sorted-IsSorted a (x ∷ xs) s = elim (Bool-cases (less x a)) [
      | inl e ↦ rw e (
        All-insert_sorted (λ y. less y x ≡ false) a xs (order.asymm x a e) s.0,
        insert_sorted-IsSorted a xs s.1,
      )
      | inr e ↦ rw e ((e, below a x xs e s.0), s)
    ]

    pub sort_slice-IsSorted : (xs : List A) → IsSorted less (sort_slice less xs)
    unfolding sort_slice
    sort_slice-IsSorted [] = tt
    sort_slice-IsSorted (x ∷ xs) =
        insert_sorted-IsSorted x (sort_slice less xs) (sort_slice-IsSorted xs)
