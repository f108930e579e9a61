-- ===== src/Base/Results.antt =====
-- Go's `(value, error)` results.
use mathlib.Core.Path.{◌≡◌, refl}
use mathlib.Core.Logic.{◌⊎◌, inl, inr}
use mathlib.Core.Bool.{Bool, true, false}
use mathlib.Core.List.{◌++◌}
use clickhouse_backup.Base.Texts.{Text, codes}

-- The sentinel errors that the program compares with, an error around another one, as `%w` makes it,
-- and every other error by its text.
pub data Error : Type 0 where
  not_found : Error
  unknown_clickhouse_data_path : Error
  api_locked : Error
  not_exist : Text → Error
  already_exists : Text → Error
  eof : Error
  unexpected_eof : Error
  canceled : Error
  wrapped : Text → Error → Error
  errorf : Text → Error

-- `err.Error()`
unfoldable pub error_text : Error → Text
error_text not_found = codes "file not found"
error_text unknown_clickhouse_data_path =
    codes "clickhouse data path is unknown, you can set data_path in config file"
error_text api_locked = codes "another operation is currently running"
error_text (not_exist message) = message
error_text (already_exists message) = message
error_text eof = codes "EOF"
error_text unexpected_eof = codes "unexpected EOF"
error_text canceled = codes "context canceled"
error_text (wrapped context e) = context ++ error_text e
error_text (errorf message) = message

-- `os.IsNotExist(err)`
abbrev pub is_not_exist : Error → Bool
is_not_exist (not_exist message) = true
is_not_exist _ = false

-- `os.IsExist(err)`
abbrev pub is_exist : Error → Bool
is_exist (already_exists message) = true
is_exist _ = false

-- `errors.Is(err, io.EOF)`
abbrev pub is_eof : Error → Bool
is_eof eof = true
is_eof (wrapped context e) = is_eof e
is_eof _ = false

-- `errors.Is(err, context.Canceled)`
abbrev pub is_canceled : Error → Bool
is_canceled canceled = true
is_canceled (wrapped context e) = is_canceled e
is_canceled _ = false

-- `err == ErrNotFound`
abbrev pub is_not_found : Error → Bool
is_not_found not_found = true
is_not_found _ = false

pub data Result {ℓ} (A : Type ℓ) : Type ℓ where
  ok : A → Result A
  err : Error → Result A

infixl 5 ◌>>=◌ ◌>>◌
abbrev pub ◌>>=◌ {ℓ κ} : {A : Type ℓ} {B : Type κ} → Result A → (A → Result B) → Result B
err failure >>= next = err failure
ok value >>= next = next value

abbrev pub ◌>>◌ {ℓ} : {B : Type ℓ} → Result (Unit {0}) → Result B → Result B
checked >> next = checked >>= λ _. next

-- `if err != nil { return fmt.Errorf(context + "%v", err) }`
abbrev pub wrap {ℓ} : {A : Type ℓ} → Text → Result A → Result A
wrap context (ok a) = ok a
wrap context (err e) = err (errorf (context ++ error_text e))

pub Result-cases {ℓ} :
    {A : Type ℓ} (r : Result A) → ((a : A) × (r ≡ ok a)) ⊎ ((e : Error) × (r ≡ err e))
Result-cases (ok a) = inl (a, refl)
Result-cases (err e) = inr (e, refl)
