-- ===== src/Base/Clock.antt =====
-- Instants, in nanoseconds since the first day of year 1 (UTC), and `time.Time.Format` for the
-- program's layouts.
use clickhouse_backup.Base.Tests.{ltb, leb, nat_beq, if◌then◌else◌}
use clickhouse_backup.Base.Texts.{Text}
use Prim.Native.Nat.{ℕ, ◌+◌, ◌-◌, ◌*◌, ◌/◌, ◌%◌}
use mathlib.Core.Bool.{Bool, ◌&&◌, ◌||◌, not}
use mathlib.Core.List.{[], ◌∷◌, ◌++◌}

abbrev pub nanoseconds_per_second : ℕ
nanoseconds_per_second = 1000000000

-- `t.Unix()`, for instants from 1970 on.
unfoldable pub unix : ℕ → ℕ
unix t = t / nanoseconds_per_second - 62135596800

abbrev is_leap : ℕ → Bool
is_leap y = nat_beq (y % 4) 0 && (not (nat_beq (y % 100) 0) || nat_beq (y % 400) 0)

-- The months of a year that begins on March 1, numbered from 0: the day on which each begins.
abbrev month_of : ℕ → ℕ
month_of day = (5 * day + 2) / 153

-- Year, month and day of a day counted from January 1 of year 1.
unfoldable pub civil : ℕ → ℕ × ℕ × ℕ
civil days =
    let z = days + 306 in
    let era = z / 146097 in
    let doe = z % 146097 in
    let yoe = (doe - doe / 1460 + doe / 36524 - doe / 146096) / 365 in
    let doy = doe - (365 * yoe + yoe / 4 - yoe / 100) in
    let mp = month_of doy in
    let day = doy - (153 * mp + 2) / 5 + 1 in
    let month = if ltb mp 10 then mp + 3 else mp - 9 in
    let year = yoe + era * 400 in (if leb month 2 then year + 1 else year, month, day)

abbrev digit : ℕ → ℕ
digit n = b'0' + n % 10

abbrev two : ℕ → Text
two n = digit (n / 10) ∷ digit n ∷ []

abbrev four : ℕ → Text
four n = digit (n / 1000) ∷ digit (n / 100) ∷ digit (n / 10) ∷ digit n ∷ []

-- The layout `2006-01-02` + `gap` + `15` + `colon` + `04` + `colon` + `05`, in years of four digits.
format_time : ℕ → ℕ → ℕ → Text
unfolding civil
format_time gap colon t =
    let seconds = t / nanoseconds_per_second in
    let (year, month, day) = civil (seconds / 86400) in
    let clock = seconds % 86400 in
    four year
    ++ (b'-' ∷ two month)
    ++ (b'-' ∷ two day)
    ++ (gap ∷ two (clock / 3600))
    ++ (colon ∷ two (clock / 60 % 60))
    ++ (colon ∷ two (clock % 60))

-- `t.Format(BackupTimeFormat)`
unfoldable pub backup_time : ℕ → Text
unfolding format_time
backup_time = format_time b'T' b'-'

-- `t.Format(APITimeFormat)`, in UTC.
unfoldable pub api_time : ℕ → Text
unfolding format_time
api_time = format_time b' ' b':'

-- `t.Format("02-01-2006 15:04:05")`, in UTC.
unfoldable pub list_time : ℕ → Text
unfolding civil
list_time t =
    let seconds = t / nanoseconds_per_second in
    let (year, month, day) = civil (seconds / 86400) in
    let clock = seconds % 86400 in
    two day
    ++ (b'-' ∷ two month)
    ++ (b'-' ∷ four year)
    ++ (b' ' ∷ two (clock / 3600))
    ++ (b':' ∷ two (clock / 60 % 60))
    ++ (b':' ∷ two (clock % 60))
