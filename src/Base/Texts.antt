-- ===== src/Base/Texts.antt =====
-- Go strings as lists of bytes, and what the program uses of the package `strings`.
use Prim.Native.Nat.{ℕ, zero, suc, ◌+◌, ◌/◌, ◌%◌}
use Prim.Native.Char.{code}
use Prim.Native.String.{String}
use mathlib.Core.Path.{◌≡◌, refl}
use mathlib.Core.Logic.{◌↔◌}
use mathlib.Core.Bool.{Bool, true, false, ◌&&◌, ◌||◌}
use mathlib.Core.List.{List, [], ◌∷◌, ◌++◌, reverse}
use native.Mathlib.Omega.{arith}
use clickhouse_backup.Base.Tests.{nat_beq, ltb, if◌then◌else◌}

-- A Go string: its bytes.
abbrev pub Text : Type 0
Text = List ℕ

-- A literal, which is ASCII wherever this development writes one.
abbrev pub codes : String → Text
codes String.[] = []
codes (String.◌∷◌ c s) = code c ∷ codes s

infix 50 ◌==◌
unfoldable pub ◌==◌ : Text → Text → Bool
[] == [] = true
(x ∷ xs) == (y ∷ ys) = nat_beq x y && xs == ys
_ == _ = false

-- `strings.HasPrefix(s, prefix)`
unfoldable pub has_prefix : Text → Text → Bool
has_prefix s [] = true
has_prefix [] (p ∷ ps) = false
has_prefix (x ∷ xs) (p ∷ ps) = nat_beq x p && has_prefix xs ps

-- `s[len(prefix):]` for a text that has the prefix.
unfoldable pub skip : Text → Text → Text
skip s [] = s
skip [] (p ∷ ps) = []
skip (x ∷ xs) (p ∷ ps) = skip xs ps

-- `strings.TrimPrefix(s, prefix)`
unfoldable pub trim_prefix : Text → Text → Text
unfolding has_prefix skip
trim_prefix s prefix = if has_prefix s prefix then skip s prefix else s

-- `strings.HasSuffix(s, suffix)`
unfoldable pub has_suffix : Text → Text → Bool
unfolding has_prefix
has_suffix s suffix = has_prefix (reverse s) (reverse suffix)

-- `strings.TrimSuffix(s, suffix)`
unfoldable pub trim_suffix : Text → Text → Text
unfolding trim_prefix
trim_suffix s suffix = reverse (trim_prefix (reverse s) (reverse suffix))

-- `strings.Contains(s, piece)`
unfoldable pub contains : Text → Text → Bool
unfolding has_prefix
contains [] piece = has_prefix [] piece
contains (x ∷ xs) piece = has_prefix (x ∷ xs) piece || contains xs piece

-- `strings.Replace(s, old, new, 1)`, for an `old` that is not empty.
unfoldable pub replace_first : Text → Text → Text → Text
unfolding has_prefix skip
replace_first [] old new = []
replace_first (x ∷ xs) old new =
    let rest = x ∷ replace_first xs old new in
    if has_prefix (x ∷ xs) old then new ++ skip (x ∷ xs) old else rest

abbrev add_to_head : ℕ → List Text → List Text
add_to_head c [] = (c ∷ []) ∷ []
add_to_head c (part ∷ parts) = (c ∷ part) ∷ parts

-- `strings.Split(s, sep)` for a separator of one byte.
unfoldable pub split : ℕ → Text → List Text
split sep [] = [] ∷ []
split sep (c ∷ s) =
    let parts = split sep s in if nat_beq c sep then [] ∷ parts else add_to_head c parts

-- `strings.Join(parts, sep)`
unfoldable pub join : Text → List Text → Text
join sep [] = []
join sep (part ∷ []) = part
join sep (part ∷ next ∷ parts) = part ++ sep ++ join sep (next ∷ parts)

abbrev trim_left : ℕ → Text → Text
trim_left c [] = []
trim_left c (x ∷ xs) = let rest = trim_left c xs in if nat_beq x c then rest else x ∷ xs

-- `strings.Trim(s, cutset)` for a cutset of one byte.
unfoldable pub trim : ℕ → Text → Text
trim c s = reverse (trim_left c (reverse (trim_left c s)))

-- `a < b` on strings: the order of their bytes.
unfoldable pub text_ltb : Text → Text → Bool
text_ltb [] [] = false
text_ltb [] (y ∷ ys) = true
text_ltb (x ∷ xs) [] = false
text_ltb (x ∷ xs) (y ∷ ys) = ltb x y || (nat_beq x y && text_ltb xs ys)

pub ==_refl : (s : Text) → (s == s) ≡ true
unfolding ◌==◌
==_refl [] = refl
==_refl (x ∷ xs) = ground (arith, ==_refl xs)

pub ==→eq : (s t : Text) → (s == t) ≡ true → s ≡ t
unfolding ◌==◌
==→eq [] [] h = refl
==→eq [] (y ∷ ys) h = cc
==→eq (x ∷ xs) [] h = cc
==→eq (x ∷ xs) (y ∷ ys) h = ground (arith, ==→eq xs ys)

-- The test decides equality.
pub ==_iff : (s t : Text) → ((s == t) ≡ true) ↔ (s ≡ t)
==_iff s t = (==→eq s t, λ e. rw e (==_refl t))

pub ==_comm : (s t : Text) → (s == t) ≡ (t == s)
unfolding ◌==◌
==_comm [] [] = refl
==_comm [] (y ∷ ys) = refl
==_comm (x ∷ xs) [] = refl
==_comm (x ∷ xs) (y ∷ ys) = ground (arith, ==_comm xs ys)

pub has_prefix-append : (p s : Text) → has_prefix (p ++ s) p ≡ true
unfolding has_prefix
has_prefix-append [] s = refl
has_prefix-append (x ∷ xs) s = ground (arith, has_prefix-append xs s)

pub skip-append : (p s : Text) → skip (p ++ s) p ≡ s
unfolding skip
skip-append [] s = refl
skip-append (x ∷ xs) s = skip-append xs s

pub trim_prefix-append : (p s : Text) → trim_prefix (p ++ s) p ≡ s
unfolding trim_prefix
trim_prefix-append p s = rw (has_prefix-append p s) (skip-append p s)

-- A text with a prefix is the prefix and what is left.
pub append-skip : (s p : Text) → has_prefix s p ≡ true → p ++ skip s p ≡ s
unfolding has_prefix skip
append-skip s [] h = refl
append-skip [] (p ∷ ps) h = cc
append-skip (x ∷ xs) (p ∷ ps) h = ground (arith, append-skip xs ps)

pub text_ltb_irrefl : (s : Text) → text_ltb s s ≡ false
unfolding text_ltb
text_ltb_irrefl [] = refl
text_ltb_irrefl (x ∷ xs) = ground (arith, text_ltb_irrefl xs)

pub text_ltb_trans :
    (a b c : Text) → text_ltb a b ≡ true → text_ltb b c ≡ true → text_ltb a c ≡ true
unfolding text_ltb
text_ltb_trans [] [] c p q = cc
text_ltb_trans [] (y ∷ ys) [] p q = cc
text_ltb_trans [] (y ∷ ys) (z ∷ zs) p q = refl
text_ltb_trans (x ∷ xs) [] c p q = cc
text_ltb_trans (x ∷ xs) (y ∷ ys) [] p q = cc
text_ltb_trans (x ∷ xs) (y ∷ ys) (z ∷ zs) p q = ground (arith, text_ltb_trans xs ys zs)

pub text_ltb_total : (a b : Text) → text_ltb a b ≡ false → text_ltb b a ≡ false → a ≡ b
unfolding text_ltb
text_ltb_total [] [] p q = refl
text_ltb_total [] (y ∷ ys) p q = cc
text_ltb_total (x ∷ xs) [] p q = cc
text_ltb_total (x ∷ xs) (y ∷ ys) p q = ground (arith, text_ltb_total xs ys)

-- The decimal digits of a number in front of `rest`, with its size as fuel.
decimal_onto : ℕ → ℕ → Text → Text
decimal_onto zero n rest = rest
decimal_onto (suc fuel) n rest =
    let digits = (b'0' + n % 10) ∷ rest in
    let more = decimal_onto fuel (n / 10) digits in if ltb n 10 then digits else more

-- `fmt.Sprintf("%d", n)`
unfoldable pub decimal : ℕ → Text
unfolding decimal_onto
decimal n = decimal_onto (suc n) n []

pub text_ltb_asymm : (a b : Text) → text_ltb a b ≡ true → text_ltb b a ≡ false
unfolding text_ltb
text_ltb_asymm [] [] p = refl
text_ltb_asymm [] (y ∷ ys) p = refl
text_ltb_asymm (x ∷ xs) [] p = cc
text_ltb_asymm (x ∷ xs) (y ∷ ys) p = ground (arith, text_ltb_asymm xs ys)

pub text_ltb_negative_trans :
    (a b c : Text) → text_ltb a b ≡ false → text_ltb b c ≡ false → text_ltb a c ≡ false
unfolding text_ltb
text_ltb_negative_trans [] [] [] p q = refl
text_ltb_negative_trans [] [] (z ∷ zs) p q = q
text_ltb_negative_trans [] (y ∷ ys) c p q = cc
text_ltb_negative_trans (x ∷ xs) [] [] p q = refl
text_ltb_negative_trans (x ∷ xs) [] (z ∷ zs) p q = cc
text_ltb_negative_trans (x ∷ xs) (y ∷ ys) [] p q = refl
text_ltb_negative_trans (x ∷ xs) (y ∷ ys) (z ∷ zs) p q =
    ground (arith, text_ltb_negative_trans xs ys zs)
