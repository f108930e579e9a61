-- ===== src/Azblob/Base64.antt =====
-- `base64.StdEncoding.EncodeToString`.
use clickhouse_backup.Base.{
  ℕ, ◌+◌, ◌-◌, ◌*◌, ◌/◌, ◌%◌, ◌<◌, ◌≡◌, refl, ap, Text, codes, [], ◌∷◌, ltb, nat_beq, arith,
  if◌then◌else◌, All, length,
}

-- The character of six bits.
unfoldable pub sextet : ℕ → ℕ
sextet n =
    if ltb n 26
    then b'A' + n
    else if ltb n 52
    then b'a' + (n - 26)
    else if ltb n 62
    then b'0' + (n - 52)
    else if nat_beq n 62
    then b'+'
    else b'/'

unfoldable pub base64 : Text → Text
base64 [] = []
base64 (a ∷ []) = sextet (a / 4) ∷ sextet (a % 4 * 16) ∷ codes "=="
base64 (a ∷ b ∷ []) =
    sextet (a / 4) ∷ sextet (a % 4 * 16 + b / 16) ∷ sextet (b % 16 * 4) ∷ codes "="
base64 (a ∷ b ∷ c ∷ s) =
    sextet (a / 4)
    ∷ sextet (a % 4 * 16 + b / 16)
    ∷ sextet (b % 16 * 4 + c / 64)
    ∷ sextet (c % 64)
    ∷ base64 s

abbrev pub IsBytes : Text → Type 0
IsBytes = All (λ c. c < 256)

sextet_injective : (m n : ℕ) → m < 64 → n < 64 → sextet m ≡ sextet n → m ≡ n
unfolding sextet
sextet_injective m n p q e = ground arith

-- Four equal characters stand for three equal bytes.
group_injective :
    (a b c x y z : ℕ)
    → (a < 256) × (b < 256) × (c < 256) × (x < 256) × (y < 256) × (z < 256)
    → sextet (a / 4) ≡ sextet (x / 4)
    → sextet (a % 4 * 16 + b / 16) ≡ sextet (x % 4 * 16 + y / 16)
    → sextet (b % 16 * 4 + c / 64) ≡ sextet (y % 16 * 4 + z / 64)
    → sextet (c % 64) ≡ sextet (z % 64)
    → (a ≡ x) × (b ≡ y) × (c ≡ z)
group_injective a b c x y z (p, q, r, p', q', r') e f g h =
    let e' = sextet_injective _ _ (omega arith) (omega arith) e in
    let f' = sextet_injective _ _ (omega arith) (omega arith) f in
    let g' = sextet_injective _ _ (omega arith) (omega arith) g in
    let h' = sextet_injective _ _ (omega arith) (omega arith) h in
    (omega (arith, e', f', g', h'), omega (arith, e', f', g', h'), omega (arith, e', f', g', h'))

-- Texts of one length have different encodings if they differ.
pub base64_injective :
    (s t : Text) → IsBytes s → IsBytes t → length s ≡ length t → base64 s ≡ base64 t → s ≡ t
unfolding base64
base64_injective [] [] p q l e = refl
base64_injective [] (x ∷ t) p q l e = absurd (omega arith)
base64_injective (a ∷ s) [] p q l e = absurd (omega arith)
base64_injective (a ∷ []) (x ∷ []) p q l e =
    let e₁ : sextet (a / 4) ≡ sextet (x / 4) = cc in
    let e₂ : sextet (a % 4 * 16) ≡ sextet (x % 4 * 16) = cc in
    let f₁ = sextet_injective (a / 4) (x / 4) (omega arith) (omega arith) e₁ in
    let f₂ = sextet_injective (a % 4 * 16) (x % 4 * 16) (omega arith) (omega arith) e₂ in
    let same : a ≡ x = omega (arith, f₁, f₂) in ap (λ n. n ∷ []) same
base64_injective (a ∷ []) (x ∷ y ∷ t) p q l e = absurd (omega arith)
base64_injective (a ∷ b ∷ s) (x ∷ []) p q l e = absurd (omega arith)
base64_injective (a ∷ b ∷ []) (x ∷ y ∷ []) p q l e =
    let e₁ : sextet (a / 4) ≡ sextet (x / 4) = cc in
    let e₂ : sextet (a % 4 * 16 + b / 16) ≡ sextet (x % 4 * 16 + y / 16) = cc in
    let e₃ : sextet (b % 16 * 4) ≡ sextet (y % 16 * 4) = cc in
    let f₁ = sextet_injective (a / 4) (x / 4) (omega arith) (omega arith) e₁ in
    let f₂ =
      sextet_injective (a % 4 * 16 + b / 16) (x % 4 * 16 + y / 16) (omega arith) (omega arith) e₂ in
    let f₃ = sextet_injective (b % 16 * 4) (y % 16 * 4) (omega arith) (omega arith) e₃ in
    let same₁ : a ≡ x = omega (arith, f₁, f₂) in
    let same₂ : b ≡ y = omega (arith, f₁, f₂, f₃) in cc (same₁, same₂)
base64_injective (a ∷ b ∷ []) (x ∷ y ∷ z ∷ t) p q l e = absurd (omega arith)
base64_injective (a ∷ b ∷ c ∷ s) (x ∷ y ∷ []) p q l e = absurd (omega arith)
base64_injective (a ∷ b ∷ c ∷ s) (x ∷ y ∷ z ∷ t) p q l e =
    let same =
      group_injective a b c x y z (p.0, p.1.0, p.1.1.0, q.0, q.1.0, q.1.1.0) (cc) (cc) (cc) (cc) in
    let rest : base64 s ≡ base64 t = cc in
    cc (same.0, same.1, same.2, base64_injective s t p.1.1.1 q.1.1.1 (omega arith) rest)
