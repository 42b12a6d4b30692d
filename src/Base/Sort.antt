-- ===== src/Base/Sort.antt =====
-- `slices.SortStableFunc`: the stable sort by a comparison whose sign orders two elements.
use mathlib.Core.Path.{◌≡◌, refl}
use mathlib.Core.Bool.{Bool, true, false}
use mathlib.Core.List.{List, [], ◌∷◌, Perm}
use mathlib.Core.List.Perm
use mathlib.Core.Logic.{inl, inr}
use native.Mathlib.Omega.{arith}
use solitaire_matchmaking.Base.Tests.{if◌then◌else◌, Bool-cases}
use solitaire_matchmaking.Base.Lists.{All, keep}

module _ {ℓ} {A : Type ℓ} (less : A → A → Bool) where
  -- `x` goes before the first element that is not less than it.
  unfoldable pub insert : A → List A → List A
  insert x [] = x ∷ []
  insert x (y ∷ ys) = if less y x then y ∷ insert x ys else x ∷ y ∷ ys

  unfoldable pub sort : List A → List A
  sort [] = []
  sort (x ∷ xs) = insert x (sort xs)

  insert-perm : (x : A) (ys : List A) → Perm (insert x ys) (x ∷ ys)
  unfolding insert
  insert-perm x [] = Perm.refl _
  insert-perm x (y ∷ ys) = elim (Bool-cases (less y x)) [
    | inl e ↦ rw e (Perm.trans (Perm.cons y (insert-perm x ys)) (Perm.swap x y ys))
    | inr e ↦ rw e (Perm.refl _)
  ]

  -- The result is a rearrangement of the input.
  pub sort-perm : (xs : List A) → Perm (sort xs) xs
  unfolding sort
  sort-perm [] = Perm.refl _
  sort-perm (x ∷ xs) = Perm.trans (insert-perm x (sort xs)) (Perm.cons x (sort-perm xs))

  pub insert-All {κ} : (P : A → Type κ) (x : A) (ys : List A) → P x → All P ys → All P (insert x ys)
  unfolding insert
  insert-All P x [] p q = (p, tt)
  insert-All P x (y ∷ ys) p (q, qs) = elim (Bool-cases (less y x)) [
    | inl e ↦ rw e (q, insert-All P x ys p qs)
    | inr e ↦ rw e (p, (q, qs))
  ]

  pub sort-All {κ} : (P : A → Type κ) (xs : List A) → All P xs → All P (sort xs)
  unfolding sort
  sort-All P [] h = tt
  sort-All P (x ∷ xs) (p, ps) = insert-All P x (sort xs) p (sort-All P xs ps)

  All-insert {κ} : (P : A → Type κ) (x : A) (ys : List A) → All P (insert x ys) → P x × All P ys
  unfolding insert
  All-insert P x [] (p, q) = (p, tt)
  All-insert P x (y ∷ ys) h = elim (Bool-cases (less y x)) [
    | inl e ↦
        let hh : All P (y ∷ insert x ys) = rw e at h in
        let (p, qs) = All-insert P x ys hh.1 in (p, (hh.0, qs))
    | inr e ↦ let hh : All P (x ∷ y ∷ ys) = rw e at h in hh
  ]

  pub All-sort {κ} : (P : A → Type κ) (xs : List A) → All P (sort xs) → All P xs
  unfolding sort
  All-sort P [] h = tt
  All-sort P (x ∷ xs) h = let (p, ps) = All-insert P x (sort xs) h in (p, All-sort P xs ps)

  -- No later element is less than an earlier one.
  abbrev pub IsSorted : List A → Type ℓ
  IsSorted [] = Unit
  IsSorted (x ∷ xs) = All (λ y. less y x ≡ false) xs × IsSorted xs

  -- The elements of a class within which nothing is less keep their order.
  module _ (p : A → Bool) (tied : (a b : A) → p a ≡ true → p b ≡ true → less a b ≡ false) where
    insert-stable : (x : A) (ys : List A) → keep p (insert x ys) ≡ keep p (x ∷ ys)
    unfolding insert
    insert-stable x [] = refl
    insert-stable x (y ∷ ys) = elim (Bool-cases (less y x)) [
      | inl e ↦ ground (arith, e, insert-stable x ys, tied y x)
      | inr e ↦ rw e refl
    ]

    pub sort-stable : (xs : List A) → keep p (sort xs) ≡ keep p xs
    unfolding sort
    sort-stable [] = refl
    sort-stable (x ∷ xs) = ground (arith, insert-stable x (sort xs), sort-stable xs)

  -- On elements where the comparison is a strict weak order, the result is sorted.
  module _ {κ} (P : A → Type κ) (asym : (a b : A) → P a → P b → less a b ≡ true → less b a ≡ false)
      (step : (a b c : A)
        → P a
        → P b
        → P c
        → less b a ≡ false
        → less c b ≡ false
        → less c a ≡ false) where
    above :
        (x y : A)
        → less y x ≡ false
        → P x
        → P y
        → (zs : List A) → All P zs
        → All (λ z. less z y ≡ false) zs
        → All (λ z. less z x ≡ false) zs
    above x y e p q [] _ _ = tt
    above x y e p q (z ∷ zs) (r, rs) (t, ts) = (step x y z p q r e t, above x y e p q zs rs ts)

    insert-IsSorted : (x : A) (ys : List A) → P x → All P ys → IsSorted ys → IsSorted (insert x ys)
    unfolding insert
    insert-IsSorted x [] p q s = (tt, tt)
    insert-IsSorted x (y ∷ ys) p (q, qs) (s, ss) = elim (Bool-cases (less y x)) [
      | inl e ↦
          rw e (
            insert-All (λ z. less z y ≡ false) x ys (asym y x q p e) s,
            insert-IsSorted x ys p qs ss,
          )
      | inr e ↦ rw e ((e, above x y e p q ys qs s), (s, ss))
    ]

    pub sort-IsSorted : (xs : List A) → All P xs → IsSorted (sort xs)
    unfolding sort
    sort-IsSorted [] h = tt
    sort-IsSorted (x ∷ xs) (p, ps) =
        insert-IsSorted x (sort xs) p (sort-All P xs ps) (sort-IsSorted xs ps)
