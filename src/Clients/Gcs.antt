-- ===== src/Clients/Gcs.antt =====
-- The client of Google Cloud Storage: pkg/chbackup/gcs.go.
use clickhouse_backup.Base.{Text, codes, Option, none, some, List, [], ◌∷◌, Error, Result, ok, err}
use clickhouse_backup.Config.{GcsConfig}
use clickhouse_backup.Remote.{RemoteFile, RemoteStorage}
use clickhouse_backup.Clients.{Answer, or_not_found}

-- The credentials that `NewClient` is given.
pub data Credentials : Type 0 where
  from_json : Text → Credentials
  from_file : Text → Credentials
  by_default : Credentials

-- The package `cloud.google.com/go/storage`. The code of `ErrObjectNotExist` is the text
-- `ErrObjectNotExist`; `objects` gives what each `Next` of the iterator returns before `Done`.
pub record GcsApi : Type 1 where
  pub State : Type 0
  pub new_client : Credentials → State → State × Option Error
  pub objects : State → Text → List (Result RemoteFile)
  pub new_reader : State → Text → Text → Result Text
  pub write : Text → Text → Text → State → State × Option Error
  pub attributes : State → Text → Text → Answer RemoteFile
  pub delete : Text → Text → State → State × Option Error

abbrev pub credentials : GcsConfig → Credentials
credentials config = choose config.credentials_json config.credentials_file
  where
    choose : Text → Text → Credentials
    choose (c ∷ json) file = from_json (c ∷ json)
    choose [] (c ∷ file) = from_file (c ∷ file)
    choose [] [] = by_default

-- The loop over the iterator, which ends at the first error.
unfoldable pub visit : List (Result RemoteFile) → List RemoteFile × Option Error
visit [] = ([], none)
visit (err e ∷ rest) = ([], some e)
visit (ok file ∷ rest) = let (files, failure) = visit rest in (file ∷ files, failure)

module _ (A : GcsApi) where
  -- The whole bucket is walked, whatever the path.
  abbrev pub gcs_storage : GcsConfig → RemoteStorage
  gcs_storage config = record {
    State = A.State;
    kind = codes "GCS";
    get_file = λ s key. or_not_found (codes "ErrObjectNotExist") (A.attributes s config.bucket key);
    delete_file = λ s key. A.delete config.bucket key s;
    connect = A.new_client (credentials config);
    walk = λ s path. visit (A.objects s config.bucket);
    get_file_reader = λ s key. A.new_reader s config.bucket key;
    put_file = λ s key content. A.write config.bucket key content s;
  }
