-- ===== src/Base/Sorting.antt =====
-- `sort.SliceStable(s, less)`: the stable sort, as an insertion sort. What Go computes is fixed by
-- the order and by stability, so the algorithm does not matter.
use Prim.Native.Nat.{suc}
use mathlib.Core.Path.{◌≡◌, refl}
use mathlib.Core.Logic.{inl, inr}
use mathlib.Core.Bool.{Bool, true, false}
use mathlib.Core.List.{List, [], ◌∷◌, ◌++◌, Perm}
use mathlib.Core.List.Perm
use native.Mathlib.Omega.{arith}
use clickhouse_backup.Base.Tests.{if◌then◌else◌, Bool-cases}
use clickhouse_backup.Base.Lists.{
  length, All, All-map, All-intro, All-zip, All-append_right, keep_if,
}

-- A strict weak order, as `sort` asks for it.
pub record IsLess {ℓ} {A : Type ℓ} (less : A → A → Bool) : Type ℓ where
  pub asymm : (a b : A) → less a b ≡ true → less b a ≡ false
  pub negative_trans : (a b c : A) → less a b ≡ false → less b c ≡ false → less a c ≡ false

module _ {ℓ} {A : Type ℓ} (less : A → A → Bool) where
  -- `x` goes before the first element that is not less than it.
  unfoldable pub insert : A → List A → List A
  insert x [] = x ∷ []
  insert x (y ∷ ys) = let rest = y ∷ insert x ys in if less y x then rest else x ∷ y ∷ ys

  unfoldable pub sort_stable : List A → List A
  unfolding insert
  sort_stable [] = []
  sort_stable (x ∷ xs) = insert x (sort_stable xs)

  -- No later element is less than an earlier one.
  abbrev pub IsSorted : List A → Type 0
  IsSorted [] = Unit
  IsSorted (x ∷ xs) = All (λ y. less y x ≡ false) xs × IsSorted xs

  -- In a sorted list nothing behind a cut is less than anything before it.
  pub IsSorted-append :
      (xs ys : List A) → IsSorted (xs ++ ys) → All (λ y. All (λ x. less y x ≡ false) xs) ys
  IsSorted-append [] ys s = All-intro (λ y. Unit) ys (λ y. tt)
  IsSorted-append (x ∷ xs) ys s =
      All-zip (λ y. less y x ≡ false) (λ y. All (λ x. less y x ≡ false) xs)
        (λ y. All (λ x. less y x ≡ false) (x ∷ xs)) ys (λ y h t. (h, t))
        (All-append_right (λ y. less y x ≡ false) xs ys s.0) (IsSorted-append xs ys s.1)

  insert-perm : (x : A) (l : List A) → Perm (insert x l) (x ∷ l)
  unfolding insert
  insert-perm x [] = Perm.rfl
  insert-perm x (y ∷ ys) = elim (Bool-cases (less y x)) [
    | inl e ↦ rw (e, insert) (Perm.trans (Perm.cons y (insert-perm x ys)) (Perm.swap x y ys))
    | inr e ↦ rw (e, insert) Perm.rfl
  ]

  -- Sorting rearranges.
  pub sort_stable-perm : (l : List A) → Perm (sort_stable l) l
  unfolding sort_stable
  sort_stable-perm [] = Perm.rfl
  sort_stable-perm (x ∷ xs) =
      Perm.trans (insert-perm x (sort_stable xs)) (Perm.cons x (sort_stable-perm xs))

  length-insert : (x : A) (l : List A) → length (insert x l) ≡ suc (length l)
  unfolding insert
  length-insert x [] = refl
  length-insert x (y ∷ ys) = ground (arith, length-insert x ys)

  pub length-sort_stable : (l : List A) → length (sort_stable l) ≡ length l
  unfolding sort_stable
  length-sort_stable [] = refl
  length-sort_stable (x ∷ xs) =
      omega (arith, length-insert x (sort_stable xs), length-sort_stable xs)

  module _ (o : IsLess less) where
    All-insert :
        (z x : A) (l : List A)
        → less x z ≡ false
        → All (λ y. less y z ≡ false) l
        → All (λ y. less y z ≡ false) (insert x l)
    unfolding insert
    All-insert z x [] h a = (h, tt)
    All-insert z x (y ∷ ys) h a = elim (Bool-cases (less y x)) [
      | inl e ↦ rw (e, insert) (a.0, All-insert z x ys h a.1)
      | inr e ↦ rw (e, insert) (h, a)
    ]

    insert-IsSorted : (x : A) (l : List A) → IsSorted l → IsSorted (insert x l)
    unfolding insert
    insert-IsSorted x [] s = (tt, tt)
    insert-IsSorted x (y ∷ ys) s = elim (Bool-cases (less y x)) [
      | inl e ↦ rw (e, insert) (All-insert y x ys (o.asymm y x e) s.0, insert-IsSorted x ys s.1)
      | inr e ↦
          rw (e, insert)
            (
              (
                e,
                All-map (λ z. less z y ≡ false) (λ z. less z x ≡ false) ys
                    (λ z h. o.negative_trans z y x h e) s.0,
              ),
              s,
            )
    ]

    -- The result is sorted.
    pub sort_stable-IsSorted : (l : List A) → IsSorted (sort_stable l)
    unfolding sort_stable
    sort_stable-IsSorted [] = tt
    sort_stable-IsSorted (x ∷ xs) = insert-IsSorted x (sort_stable xs) (sort_stable-IsSorted xs)

  module _ (p : A → Bool) (tied : (a b : A) → p a ≡ true → p b ≡ true → less a b ≡ false) where
    keep_if-insert : (x : A) (l : List A) → keep_if p (insert x l) ≡ keep_if p (x ∷ l)
    unfolding insert
    keep_if-insert x [] = refl
    keep_if-insert x (y ∷ ys) = ground (arith, keep_if-insert x ys, tied y x)

    -- Stability: elements that tie keep their order.
    pub keep_if-sort_stable : (l : List A) → keep_if p (sort_stable l) ≡ keep_if p l
    unfolding sort_stable
    keep_if-sort_stable [] = refl
    keep_if-sort_stable (x ∷ xs) =
        rw (keep_if-insert x (sort_stable xs)) (ground (arith, keep_if-sort_stable xs))
