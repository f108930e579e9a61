-- ===== src/Names/Roundtrip.antt =====
-- `TablePathEncode`, and reading back what it makes.
use clickhouse_backup.Base.{
  ℕ, ◌/◌, ◌%◌, ◌<◌, ◌≡◌, refl, ap, ◌∙◌, Text, codes, Bool, true, false, ◌||◌, some, [], ◌∷◌, ◌++◌,
  nat_beq, nat_beq_iff, All, All-append, not, arith, Bool-cases, inl, inr,
}
use clickhouse_backup.Names.{
  hex_digit, escaped, path_escape, replace_all, table_path_encode, unhex, path_unescape,
  is_unreserved, cons_to,
}

-- A list of bytes.
abbrev pub IsBytes : Text → Type 0
IsBytes = All (λ c. c < 256)

-- What the encoding makes of one byte, by whether it is a dash, a dot, or another plain byte.
abbrev code_by : Bool → Bool → Bool → ℕ → Text
code_by true dot plain c = codes "%2D"
code_by false true plain c = codes "%2E"
code_by false false true c = c ∷ []
code_by false false false c = escaped c

abbrev code_of : ℕ → Text
code_of c = code_by (nat_beq c b'-') (nat_beq c b'.') (is_unreserved c) c

table_path_encode-cons :
    (c : ℕ) (s : Text) → c < 256 → table_path_encode (c ∷ s) ≡ code_of c ++ table_path_encode s
unfolding table_path_encode path_escape replace_all
table_path_encode-cons c s h = ground arith

unhex-hex_digit : (n : ℕ) → n < 16 → unhex (hex_digit n) ≡ some n
unhex-hex_digit n h = ground arith

path_unescape-plain :
    (c : ℕ) (t : Text)
    → nat_beq c b'%' ≡ false
    → path_unescape (c ∷ t) ≡ cons_to (some c) (path_unescape t)
unfolding path_unescape
path_unescape-plain c [] h = ground arith
path_unescape-plain c (d ∷ []) h = ground arith
path_unescape-plain c (d ∷ e ∷ t) h = ground arith

path_unescape-escaped :
    (c : ℕ) (t : Text)
    → c < 256
    → path_unescape (escaped c ++ t) ≡ cons_to (some c) (path_unescape t)
unfolding path_unescape
path_unescape-escaped c t h =
    rw (unhex-hex_digit (c / 16) (omega arith), unhex-hex_digit (c % 16) (omega arith))
      (ap (λ b. cons_to (some b) (path_unescape t)) (omega arith))

abbrev pub is_safe : ℕ → Bool
is_safe c = not (nat_beq c b'/' || nat_beq c b'.' || nat_beq c b'-')

is_safe-hex_digit : (n : ℕ) → n < 16 → is_safe (hex_digit n) ≡ true
is_safe-hex_digit n h = ground arith

is_safe_of_tests :
    (c : ℕ)
    → nat_beq c b'/' ≡ false
    → nat_beq c b'.' ≡ false
    → nat_beq c b'-' ≡ false
    → is_safe c ≡ true
is_safe_of_tests c p q r = rw (p, q, r)

slash_reserved : (c : ℕ) → is_unreserved c ≡ true → nat_beq c b'/' ≡ false
slash_reserved c r = elim (Bool-cases (nat_beq c b'/')) [
  | inr other ↦ other
  | inl same ↦ let e : c ≡ b'/' = (nat_beq_iff c b'/').0 same in cc (ap is_unreserved e)
]

code_by_safe :
    (dash dot plain : Bool) (c : ℕ)
    → c < 256
    → nat_beq c b'-' ≡ dash
    → nat_beq c b'.' ≡ dot
    → is_unreserved c ≡ plain
    → All (λ x. is_safe x ≡ true) (code_by dash dot plain c)
code_by_safe true dot plain c h p q r = (refl, (refl, (refl, tt)))
code_by_safe false true plain c h p q r = (refl, (refl, (refl, tt)))
code_by_safe false false true c h p q r = (is_safe_of_tests c (slash_reserved c r) q p, tt)
code_by_safe false false false c h p q r = (
  refl,
  (is_safe-hex_digit (c / 16) (omega arith), (is_safe-hex_digit (c % 16) (omega arith), tt)),
)

path_unescape-code_by :
    (dash dot plain : Bool) (c : ℕ) (t : Text)
    → c < 256
    → nat_beq c b'-' ≡ dash
    → nat_beq c b'.' ≡ dot
    → is_unreserved c ≡ plain
    → path_unescape (code_by dash dot plain c ++ t) ≡ cons_to (some c) (path_unescape t)
path_unescape-code_by true dot plain c t h p q r =
    let e : c ≡ b'-' = ground arith in rw e (path_unescape-escaped b'-' t (omega arith))
path_unescape-code_by false true plain c t h p q r =
    let e : c ≡ b'.' = ground arith in rw e (path_unescape-escaped b'.' t (omega arith))
path_unescape-code_by false false true c t h p q r = path_unescape-plain c t (ground arith)
path_unescape-code_by false false false c t h p q r = path_unescape-escaped c t h

-- Unescaping the path that `TablePathEncode` makes of a list of bytes gives these bytes back.
pub path_unescape-table_path_encode :
    (s : Text) → IsBytes s → path_unescape (table_path_encode s) ≡ some s
path_unescape-table_path_encode [] h =
    unfold path_unescape table_path_encode path_escape replace_all in refl
path_unescape-table_path_encode (c ∷ s) h =
    ap path_unescape (table_path_encode-cons c s h.0)
    ∙ path_unescape-code_by _ _ _ c (table_path_encode s) h.0 refl refl refl
    ∙ ap (cons_to (some c)) (path_unescape-table_path_encode s h.1)

-- What `TablePathEncode` makes of a list of bytes holds no slash, no dot and no dash.
pub table_path_encode_safe :
    (s : Text) → IsBytes s → All (λ c. is_safe c ≡ true) (table_path_encode s)
table_path_encode_safe [] h = unfold table_path_encode path_escape replace_all in tt
table_path_encode_safe (c ∷ s) h = rw (table_path_encode-cons c s h.0) (
    All-append (λ c. is_safe c ≡ true) (code_of c) (table_path_encode s)
      (code_by_safe _ _ _ c h.0 refl refl refl) (table_path_encode_safe s h.1))
