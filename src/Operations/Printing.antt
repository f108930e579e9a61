-- ===== src/Operations/Printing.antt =====
-- The lists of backups: `printBackups`, `PrintLocalBackups` of pkg/chbackup/backup.go and `FormatBytes` of
-- pkg/chbackup/utils.go. What is printed is a list of lines.
use clickhouse_backup.Base.{
  Option, none, some, ℕ, ◌+◌, ◌-◌, ◌*◌, ◌/◌, ◌%◌, Text, codes, decimal, ◌==◌, Bool, false, ◌&&◌,
  ◌||◌, none, some, List, [], ◌∷◌, ◌++◌, map, get_elem?, length, leb, ltb, nat_beq, errorf,
  is_not_exist, Result, ok, err, if◌then◌else◌,
}
use clickhouse_backup.Base.Clock.{list_time}
use clickhouse_backup.Config.{Config}
use clickhouse_backup.Local.{Machine, unless_panic, list_local_backups}
use clickhouse_backup.Retention.{Backup}

-- The hundredths of a quotient, rounded to the nearest, and to an even number between two.
abbrev pub hundredths : ℕ → ℕ → ℕ
hundredths n unit =
    let below = 100 * n / unit in
    let rest = 2 * (100 * n % unit) in
    if ltb unit rest || (nat_beq unit rest && nat_beq (below % 2) 1) then below + 1 else below

abbrev two_digits : ℕ → Text
two_digits n = (b'0' + n / 10) ∷ (b'0' + n % 10) ∷ []

-- `fmt.Sprintf("%.02f", float64(n)/unit)` for a power of two and sizes below 2 ^ 53.
abbrev pub quotient_text : ℕ → ℕ → Text
quotient_text n unit =
    decimal (hundredths n unit / 100) ++ codes "." ++ two_digits (hundredths n unit % 100)

unfoldable pub format_bytes : ℕ → Text
format_bytes n =
    if leb 1099511627776 n
    then quotient_text n 1099511627776 ++ codes " TiB"
    else if leb 1073741824 n
    then quotient_text n 1073741824 ++ codes " GiB"
    else if leb 1048576 n
    then quotient_text n 1048576 ++ codes " MiB"
    else if leb 1024 n
    then quotient_text n 1024 ++ codes " KiB"
    else decimal n ++ codes " B"

abbrev pub backup_line : Bool → Backup → Text
backup_line print_size b =
    codes "- '"
    ++ b.name
    ++ codes "'\t"
    ++ (if print_size then format_bytes b.size ++ codes "\t" else [])
    ++ codes "(created at "
    ++ list_time b.date
    ++ codes ")"

-- The name of the backup that stands `n` from the end.
abbrev pub from_end : ℕ → List Backup → Text → Result (List Text)
from_end n backups none_text =
    if ltb (length backups) n
    then err (errorf none_text)
    else elim (get_elem? backups (length backups - n)) [ some b ↦ ok (b.name ∷ []) | none ↦ ok [] ]

abbrev pub all_lines : Bool → List Backup → List Text
all_lines print_size [] = codes "no backups found" ∷ []
all_lines print_size (b ∷ backups) = map (backup_line print_size) (b ∷ backups)

abbrev pub is_one_of : Text → List Text → Bool
is_one_of text [] = false
is_one_of text (word ∷ words) = text == word || is_one_of text words

unfoldable pub print_backups : List Backup → Text → Bool → Result (List Text)
print_backups backups format print_size =
    if is_one_of format (codes "latest" ∷ codes "last" ∷ codes "l" ∷ [])
    then from_end 1 backups (codes "no backups found")
    else if is_one_of format (codes "penult" ∷ codes "prev" ∷ codes "previous" ∷ codes "p" ∷ [])
    then from_end 2 backups (codes "no penult backup is found")
    else if is_one_of format (codes "all" ∷ [] ∷ [])
    then ok (all_lines print_size backups)
    else err (errorf (codes "'" ++ format ++ codes "' undefined"))

module _ (L : Machine) where
  -- A directory of backups that does not exist holds none.
  abbrev pub print_listed : Text → Result (List Backup) → Result (List Text)
  print_listed format (ok backups) = print_backups backups format false
  print_listed format (err e) = if is_not_exist e then print_backups [] format false else err e

  -- The outer `none` is a panic.
  unfoldable pub print_local_backups : Config → Text → L.State → Option (Result (List Text))
  print_local_backups config format s =
      unless_panic (list_local_backups L config s) none (λ r. some (print_listed format r))
