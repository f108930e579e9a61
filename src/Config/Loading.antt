-- ===== src/Config/Loading.antt =====
-- `LoadConfig` of pkg/chbackup/config.go: the file, the environment, and the checks.
use clickhouse_backup.Base.{
  Text, codes, ◌++◌, ◌≡◌, refl, sym, ap, ◌∙◌, true, Error, error_text, errorf, is_not_exist, Result,
  ok, err, ◌>>=◌, if◌then◌else◌,
}
use clickhouse_backup.Config.{Config, default_config, validate_config}
use clickhouse_backup.Config.Validity.{IsValid, is_ok, validate_config-IsValid}

-- `ioutil.ReadFile`, `yaml.Unmarshal` into a configuration that is there, and `envconfig.Process`, which
-- sets what the environment names.
pub record Sources : Type 0 where
  pub read_file : Text → Result Text
  pub unmarshal : Text → Config → Result Config
  pub environment : Config → Result Config

abbrev checked : Config → Result Config
checked config = validate_config config >>= λ _. ok config

>>=-ok {ℓ κ} :
    {A : Type ℓ} {B : Type κ} (r : Result A) (f : A → Result B) (b : B)
    → (r >>= f) ≡ ok b
    → (a : A) × (r ≡ ok a) × (f a ≡ ok b)
>>=-ok (ok a) f b h = (a, refl, h)
>>=-ok (err e) f b h = absurd cc

checked-IsValid : (config c : Config) → checked config ≡ ok c → IsValid c
checked-IsValid config c h =
    let (_, fine, same) = >>=-ok (validate_config config) (λ _. ok config) c h in
    let e : config ≡ c = cc in rw (sym e) (validate_config-IsValid config (ap is_ok fine))

module _ (E : Sources) where
  abbrev parsed : Result Config → Result Config
  parsed (err e) = err (errorf (codes "can't parse config file: " ++ error_text e))
  parsed (ok config) = E.environment config >>= checked

  abbrev pub from_file : Result Text → Result Config
  from_file (ok text) = parsed (E.unmarshal text default_config)
  from_file (err e) =
      if is_not_exist e
      then E.environment default_config
      else err (errorf (codes "can't open config file: " ++ error_text e))

  -- A configuration beside an error is not used, and is left out.
  unfoldable pub load_config : Text → Result Config
  load_config location = from_file (E.read_file location)

  parsed-IsValid : (r : Result Config) (c : Config) → parsed r ≡ ok c → IsValid c
  parsed-IsValid (err e) c h = absurd cc
  parsed-IsValid (ok config) c h =
      let (set, e, valid) = >>=-ok (E.environment config) checked c h in checked-IsValid set c valid

  -- A configuration that `LoadConfig` reads from a file that is there is valid: the formats of S3
  -- and GCS can be read back and have an extension, and the timeouts of ClickHouse, COS and FTP
  -- are durations.
  pub load_config-IsValid :
      (location text : Text) (c : Config)
      → E.read_file location ≡ ok text
      → load_config location ≡ ok c
      → IsValid c
  unfolding load_config
  load_config-IsValid location text c read h =
      parsed-IsValid (E.unmarshal text default_config) c (ap from_file (sym read) ∙ h)

  -- Where there is no file, what the environment makes of the defaults is not checked.
  pub load_config-missing :
      (location : Text) (e : Error)
      → E.read_file location ≡ err e
      → is_not_exist e ≡ true
      → load_config location ≡ E.environment default_config
  unfolding load_config
  load_config-missing location e read missing = rw (read, missing) refl
