-- ===== src/Clients/Ftp.antt =====
-- The client of an FTP server: pkg/chbackup/ftp.go.
use clickhouse_backup.Base.{
  ℤ, Text, codes, ◌==◌, Bool, true, Option, none, some, List, [], ◌∷◌, Error, not_found, Result, ok,
  err, if◌then◌else◌,
}
use clickhouse_backup.Base.Paths.{path_dir, path_base}
use clickhouse_backup.Base.Steps.{◌then_do◌}
use clickhouse_backup.Config.{FtpConfig}
use clickhouse_backup.Config.Durations.{parse_duration}
use clickhouse_backup.Remote.{RemoteFile, RemoteStorage}

-- The options of `Dial`.
pub record DialOptions : Type 0 where
  pub timeout : ℤ
  pub disabled_epsv : Bool
  pub debug_output : Bool
  pub tls : Bool

-- A step of the walker for which `Next` is true: its error, and the entry, which may be missing.
pub record WalkStep : Type 0 where
  pub failure : Option Error
  pub entry : Option RemoteFile
  pub path : Text

-- The package `jlaffaye/ftp`; an entry of `list` has its name in the directory.
pub record FtpApi : Type 1 where
  pub State : Type 0
  pub dial : Text → DialOptions → State → State × Option Error
  pub login : Text → Text → State → State × Option Error
  pub list : State → Text → Result (List RemoteFile)
  pub delete : Text → State → State × Option Error
  pub steps : State → Text → List WalkStep
  pub retrieve : State → Text → Result Text
  pub store : Text → Text → State → State × Option Error

abbrev pub dial_options : FtpConfig → ℤ → DialOptions
dial_options config timeout = record {
  timeout = timeout;
  disabled_epsv = true;
  debug_output = config.debug;
  tls = config.tls;
}

-- The file is looked for among the entries of its directory.
unfoldable pub find_entry : Text → List RemoteFile → Result RemoteFile
find_entry file [] = err not_found
find_entry file (entry ∷ entries) =
    let rest = find_entry file entries in if file == entry.name then ok entry else rest

abbrev add_entry : Option RemoteFile → Text → List RemoteFile → List RemoteFile
add_entry none path files = files
add_entry (some entry) path files =
    record { size = entry.size; name = path; last_modified = entry.last_modified } ∷ files

unfoldable pub visit_steps : List WalkStep → List RemoteFile × Option Error
visit_steps [] = ([], none)
visit_steps (step ∷ steps) = elim step.failure as (λ _. List RemoteFile × Option Error) [
  | some e ↦ ([], some e)
  | none ↦
      let (files, failure) = visit_steps steps in (add_entry step.entry step.path files, failure)
]

module _ (A : FtpApi) where
  unfoldable pub connect : FtpConfig → A.State → A.State × Option Error
  connect config s = elim (parse_duration config.timeout) [
    | err e ↦ (s, some e)
    | ok timeout ↦
        A.dial config.address (dial_options config timeout) s
        then_do A.login config.username config.password
  ]

  abbrev find_in : Text → Result (List RemoteFile) → Result RemoteFile
  find_in file (err e) = err e
  find_in file (ok entries) = find_entry file entries

  abbrev pub ftp_storage : FtpConfig → RemoteStorage
  ftp_storage config = record {
    State = A.State;
    kind = codes "FTP";
    get_file = λ s key. find_in (path_base key) (A.list s (path_dir key));
    delete_file = λ s key. A.delete key s;
    connect = connect config;
    walk = λ s root. visit_steps (A.steps s root);
    get_file_reader = A.retrieve;
    put_file = λ s key content. A.store key content s;
  }
