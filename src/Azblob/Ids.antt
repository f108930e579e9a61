-- ===== src/Azblob/Ids.antt =====
-- The block ids: `id`, `newID`, `next` and `issued`.
use clickhouse_backup.Base.{
  ℕ, zero, suc, ◌+◌, ◌/◌, ◌%◌, ◌^◌, ◌<◌, ◌≤◌, ◌≡◌, ◌≢◌, refl, Text, ◌==◌, ==_iff, Bool, false, List,
  [], ◌∷◌, ◌++◌, any, any-append, arith, All-append, length-append, NodupBy, NodupBy-append,
}
use clickhouse_backup.Azblob.Base64.{base64, base64_injective, IsBytes}

-- The field `u` is the UUID, the number in four bytes and 44 bytes of zeros.
pub record BlockIds : Type 0 where
  pub uuid : Text
  pub num : ℕ
  pub all : List Text

-- `binary.BigEndian.PutUint32`
abbrev big_endian : ℕ → Text
big_endian n = n / 2 ^ 24 % 256 ∷ n / 2 ^ 16 % 256 ∷ n / 2 ^ 8 % 256 ∷ n % 256 ∷ []

abbrev zeros : ℕ → Text
zeros zero = []
zeros (suc n) = 0 ∷ zeros n

unfoldable pub block_id : Text → ℕ → Text
block_id uuid num = base64 (uuid ++ (big_endian num ++ zeros 44))

-- `newID`, for the bytes of a UUID.
unfoldable pub new_id : Text → BlockIds
new_id uuid = record { uuid = uuid; num = 0; all = [] }

-- `id.next()`; the number is a `uint32`.
unfoldable pub next : BlockIds → Text × BlockIds
next id =
    let str = block_id id.uuid id.num in
    (str, record id { num = (id.num + 1) % 2 ^ 32; all = id.all ++ (str ∷ []) })

append_cancel : (s t u : Text) → s ++ t ≡ s ++ u → t ≡ u
append_cancel [] t u e = e
append_cancel (c ∷ s) t u e = append_cancel s t u (cc)

-- For a UUID of bytes, the block ids of two numbers below 2 ^ 32 are the same only if the numbers
-- are.
pub block_id_injective :
    (uuid : Text) (m n : ℕ)
    → IsBytes uuid
    → m < 2 ^ 32
    → n < 2 ^ 32
    → block_id uuid m ≡ block_id uuid n
    → m ≡ n
unfolding block_id
block_id_injective uuid m n u p q e =
    let same : big_endian m ++ zeros 44 ≡ big_endian n ++ zeros 44 = append_cancel uuid _ _ (
      base64_injective _ _ (bytes m) (bytes n)
        (omega (
          arith,
          length-append uuid (big_endian m ++ zeros 44),
          length-append uuid (big_endian n ++ zeros 44),
        ))
        e) in
    let e₁ : m / 2 ^ 24 % 256 ≡ n / 2 ^ 24 % 256 = cc in
    let e₂ : m / 2 ^ 16 % 256 ≡ n / 2 ^ 16 % 256 = cc in
    let e₃ : m / 2 ^ 8 % 256 ≡ n / 2 ^ 8 % 256 = cc in
    let e₄ : m % 256 ≡ n % 256 = cc in omega arith
  where
    bytes : (k : ℕ) → IsBytes (uuid ++ (big_endian k ++ zeros 44))
    bytes k = All-append (λ c. c < 256) uuid (big_endian k ++ zeros 44) u (omega arith)

-- The ids of the numbers below `n`, in order.
unfoldable pub ids_below : Text → ℕ → List Text
ids_below uuid zero = []
ids_below uuid (suc n) = ids_below uuid n ++ (block_id uuid n ∷ [])

not_below :
    (uuid : Text) (n m : ℕ)
    → IsBytes uuid
    → n ≤ m
    → m < 2 ^ 32
    → any (ids_below uuid n) (λ x. x == block_id uuid m) ≡ false
unfolding ids_below
not_below uuid zero m u h b = refl
not_below uuid (suc n) m u h b =
    let old = not_below uuid n m u (omega arith) b in
    let new : block_id uuid n ≢ block_id uuid m =
      λ e. absurd (omega (arith, block_id_injective uuid n m u (omega arith) b e)) in
    ground (
      arith,
      any-append (ids_below uuid n) (block_id uuid n ∷ []) (λ x. x == block_id uuid m),
      ==_iff (block_id uuid n) (block_id uuid m),
    )

abbrev pub same_text : Text → Text → Bool
same_text a b = a == b

-- The first 2 ^ 32 ids are different.
pub ids_below-NodupBy :
    (uuid : Text) (n : ℕ) → IsBytes uuid → n ≤ 2 ^ 32 → NodupBy same_text (ids_below uuid n)
unfolding ids_below
ids_below-NodupBy uuid zero u h = tt
ids_below-NodupBy uuid (suc n) u h =
    NodupBy-append same_text (ids_below uuid n) (block_id uuid n)
      (not_below uuid n n u (omega arith) (omega arith)) (ids_below-NodupBy uuid n u (omega arith))
