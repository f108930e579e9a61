-- ===== src/Base/Perms.antt =====
-- Tests on lists that do not see the order.
use mathlib.Core.Path.{◌≡◌, refl, ◌∙◌}
use mathlib.Core.Logic.{∥∥₁_elim, inl, inr}
use mathlib.Core.Bool.{Bool, ◌&&◌, ◌||◌, Bool-set}
use mathlib.Core.List.{List, [], ◌∷◌, map, Perm, Permᴰ}
use native.Mathlib.Omega.{arith}
use clickhouse_backup.Base.Tests.{Bool-cases}
use clickhouse_backup.Base.Lists.{any, keep_if, All}
use clickhouse_backup.Base.Sorting.{insert, sort_stable}

module _ {ℓ} {A : Type ℓ} (p : A → Bool) where
  any-permᴰ : {xs ys : List A} → Permᴰ xs ys → any xs p ≡ any ys p
  any-permᴰ Permᴰ.nil = refl
  any-permᴰ (Permᴰ.cons e r) = ground (arith, any-permᴰ r)
  any-permᴰ (Permᴰ.swap d e) = ground arith
  any-permᴰ (Permᴰ.trans r s) = any-permᴰ r ∙ any-permᴰ s

  pub any-perm : {xs ys : List A} → Perm xs ys → any xs p ≡ any ys p
  any-perm r = ∥∥₁_elim r (Bool-set _ _) any-permᴰ

  pub any-keep_if : (q : A → Bool) (xs : List A) → any (keep_if q xs) p ≡ any xs (λ x. p x && q x)
  any-keep_if q [] = refl
  any-keep_if q (x ∷ xs) = ground (arith, any-keep_if q xs)

  any-insert :
      (less : A → A → Bool) (x : A) (xs : List A) → any (insert less x xs) p ≡ (p x || any xs p)
  unfolding insert
  any-insert less x [] = refl
  any-insert less x (y ∷ ys) = ground (arith, any-insert less x ys)

  pub any-sort_stable : (less : A → A → Bool) (xs : List A) → any (sort_stable less xs) p ≡ any xs p
  unfolding sort_stable
  any-sort_stable less [] = refl
  any-sort_stable less (x ∷ xs) =
      ground (arith, any-insert less x (sort_stable less xs), any-sort_stable less xs)

pub any-map {ℓ κ} :
    {A : Type ℓ} {B : Type κ} (f : A → B) (p : B → Bool) (xs : List A)
    → any (map f xs) p ≡ any xs (λ x. p (f x))
any-map f p [] = refl
any-map f p (x ∷ xs) = ground (arith, any-map f p xs)

All-insert {ℓ κ} :
    {A : Type ℓ} (P : A → Type κ) (less : A → A → Bool) (x : A) (xs : List A)
    → P x
    → All P xs
    → All P (insert less x xs)
unfolding insert
All-insert P less x [] h a = (h, tt)
All-insert P less x (y ∷ ys) h a = elim (Bool-cases (less y x)) [
  | inl e ↦ rw (e, insert) (a.0, All-insert P less x ys h a.1)
  | inr e ↦ rw (e, insert) (h, a)
]

pub All-sort_stable {ℓ κ} :
    {A : Type ℓ} (P : A → Type κ) (less : A → A → Bool) (xs : List A)
    → All P xs
    → All P (sort_stable less xs)
unfolding sort_stable
All-sort_stable P less [] h = tt
All-sort_stable P less (x ∷ xs) h =
    All-insert P less x (sort_stable less xs) h.0 (All-sort_stable P less xs h.1)
