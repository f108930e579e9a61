-- ===== src/Config/Validity.antt =====
-- What `validateConfig` accepts, and how the format functions of utils.go agree.
use clickhouse_backup.Base.{
  ◌≡◌, refl, sym, ◌∙◌, Text, Bool, true, false, not, ℤ, Result, ok, err, ◌>>◌, arith,
}
use clickhouse_backup.Base.Paths.{is_empty}
use clickhouse_backup.Config.{Config, check, validate_config}
use clickhouse_backup.Config.Formats.{get_archive_writer, get_extension, get_archive_reader}
use clickhouse_backup.Config.Durations.{parse_duration}

abbrev pub is_ok {ℓ} : {A : Type ℓ} → Result A → Bool
is_ok (ok a) = true
is_ok (err e) = false

is_ok-check {ℓ} : {A : Type ℓ} (r : Result A) → is_ok (check r) ≡ is_ok r
is_ok-check (ok a) = refl
is_ok-check (err e) = refl

both_ok {ℓ κ} :
    {A : Type ℓ} {B : Type κ} (r : Result A) (k : Result B)
    → is_ok (check r >> k) ≡ true
    → (is_ok r ≡ true) × (is_ok k ≡ true)
both_ok (ok a) k h = (refl, h)
both_ok (err e) k h = absurd (ground (arith, h))

-- `getArchiveWriter` and `getArchiveReader` accept the same formats, and these are those that
-- `getExtension` has an extension for.
pub formats_agree :
    (format : Text) (level : ℤ)
    → (is_ok (get_archive_writer format level) ≡ is_ok (get_archive_reader format))
      × (is_ok (get_archive_writer format level) ≡ not (is_empty (get_extension format)))
unfolding get_archive_writer get_archive_reader get_extension
formats_agree format level = ground arith

-- A record of what the rest of the program needs of a format.
pub record IsUsable (format : Text) : Type 0 where
  pub readable : is_ok (get_archive_reader format) ≡ true
  pub named : is_empty (get_extension format) ≡ false

is_ok-IsUsable :
    (format : Text) (level : ℤ) → is_ok (get_archive_writer format level) ≡ true → IsUsable format
is_ok-IsUsable format level h = record {
  readable = ground (arith, formats_agree format level, h);
  named = ground (arith, formats_agree format level, h);
}

pub record IsValid (config : Config) : Type 0 where
  pub s3 : IsUsable config.s3.compression_format
  pub gcs : IsUsable config.gcs.compression_format
  pub click_house : is_ok (parse_duration config.click_house.timeout) ≡ true
  pub cos : is_ok (parse_duration config.cos.timeout) ≡ true
  pub ftp : is_ok (parse_duration config.ftp.timeout) ≡ true

-- In a configuration that `validateConfig` accepts, the formats of S3 and GCS can be read back
-- and have an extension, and the timeouts of ClickHouse, COS and FTP are durations.
pub validate_config-IsValid :
    (config : Config) → is_ok (validate_config config) ≡ true → IsValid config
unfolding validate_config
validate_config-IsValid config h =
    let (s, h₁) =
      both_ok (get_archive_writer config.s3.compression_format config.s3.compression_level) _ h in
    let (g, h₂) =
      both_ok (get_archive_writer config.gcs.compression_format config.gcs.compression_level) _
        h₁ in
    let (t, h₃) = both_ok (parse_duration config.click_house.timeout) _ h₂ in
    let (u, h₄) = both_ok (parse_duration config.cos.timeout) _ h₃ in
    record {
      s3 = is_ok-IsUsable config.s3.compression_format config.s3.compression_level s;
      gcs = is_ok-IsUsable config.gcs.compression_format config.gcs.compression_level g;
      click_house = t;
      cos = u;
      ftp = sym (is_ok-check (parse_duration config.ftp.timeout)) ∙ h₄;
    }

-- The formats of COS, FTP and Azure are not checked.
abbrev pub with_formats : Text → Text → Text → Config → Config
with_formats cos ftp azure config = record config {
  cos = record (config.cos) { compression_format = cos };
  ftp = record (config.ftp) { compression_format = ftp };
  azure_blob = record (config.azure_blob) { compression_format = azure };
}

-- What `validateConfig` answers does not depend on the formats of COS, FTP and Azure.
pub validate_config-with_formats :
    (config : Config) (cos ftp azure : Text)
    → validate_config (with_formats cos ftp azure config) ≡ validate_config config
unfolding validate_config
validate_config-with_formats config cos ftp azure = refl
