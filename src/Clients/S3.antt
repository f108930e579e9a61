-- ===== src/Clients/S3.antt =====
-- The client of S3: pkg/chbackup/s3.go.
use clickhouse_backup.Base.{
  ℕ, Text, codes, ◌==◌, Bool, ◌||◌, Option, none, some, List, [], ◌∷◌, ◌++◌, Error, error_text,
  errorf, Result, if◌then◌else◌,
}
use clickhouse_backup.Base.Paths.{slash, is_empty}
use clickhouse_backup.Config.{S3Config}
use clickhouse_backup.Remote.{RemoteFile, RemoteStorage}
use clickhouse_backup.Clients.{Answer, or_not_found, all_pages}

-- What `NewSession` is made with.
pub record SessionConfig : Type 0 where
  pub access_key : Text
  pub secret_key : Text
  pub region : Text
  pub endpoint : Text
  pub disable_ssl : Bool
  pub force_path_style : Bool
  pub max_retries : ℕ
  pub skip_verification : Bool
  pub debug : Bool

-- What `Upload` is called with.
pub record UploadInput : Type 0 where
  pub acl : Text
  pub bucket : Text
  pub key : Text
  pub body : Text
  pub server_side_encryption : Option Text
  pub part_size : ℕ
  pub concurrency : ℕ

-- The package `aws-sdk-go`. `list_pages` gives the pages that the callback sees, and the error in the
-- end; `describe` is the text of the parameters of a deletion.
pub record S3Api : Type 1 where
  pub State : Type 0
  pub new_session : SessionConfig → State → State × Option Error
  pub head_object : State → Text → Text → Answer RemoteFile
  pub get_object : State → Text → Text → Result Text
  pub upload : UploadInput → State → State × Option Error
  pub delete_object : Text → Text → State → State × Option Error
  pub list_pages : State → Text → Option Text → ℕ → List (List RemoteFile) × Option Error
  pub describe : Text → Text → Text

abbrev pub session_config : S3Config → SessionConfig
session_config config = record {
  access_key = config.access_key;
  secret_key = config.secret_key;
  region = config.region;
  endpoint = config.endpoint;
  disable_ssl = config.disable_ssl;
  force_path_style = config.force_path_style;
  max_retries = 30;
  skip_verification = config.disable_cert_verification;
  debug = config.debug;
}

abbrev pub text_if_set : Text → Option Text
text_if_set [] = none
text_if_set (c ∷ text) = some (c ∷ text)

abbrev pub upload_input : S3Config → Text → Text → UploadInput
upload_input config key content = record {
  acl = config.acl;
  bucket = config.bucket;
  key = key;
  body = content;
  server_side_encryption = text_if_set config.sse;
  part_size = config.part_size;
  concurrency = 10;
}

-- The prefix of a listing: none for the root.
abbrev pub page_prefix : Text → Option Text
page_prefix path = if is_empty path || path == slash then none else some path

module _ (A : S3Api) where
  abbrev pub delete_error : Text → Text → A.State × Option Error → A.State × Option Error
  delete_error bucket key (s, none) = (s, none)
  delete_error bucket key (s, some e) = (
    s,
    some (
        errorf (
          codes "DeleteFile, deleting object "
          ++ A.describe bucket key
          ++ codes ": "
          ++ error_text e)),
  )

  abbrev pub walk_pages : S3Config → A.State → List RemoteFile × Option Error
  walk_pages config s =
      let (pages, failure) = A.list_pages s config.bucket (page_prefix config.path) 1000 in
      (all_pages pages, failure)

  -- The path that `Walk` is given is not used: the configured one is.
  abbrev pub s3_storage : S3Config → RemoteStorage
  s3_storage config = record {
    State = A.State;
    kind = codes "S3";
    get_file = λ s key. or_not_found (codes "NotFound") (A.head_object s config.bucket key);
    delete_file = λ s key. delete_error config.bucket key (A.delete_object config.bucket key s);
    connect = A.new_session (session_config config);
    walk = λ s path. walk_pages config s;
    get_file_reader = λ s key. A.get_object s config.bucket key;
    put_file = λ s key content. A.upload (upload_input config key content) s;
  }
