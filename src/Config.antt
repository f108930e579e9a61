-- ===== src/Config.antt =====
-- The configuration of pkg/chbackup/config.go: its sections, its defaults and `validateConfig`.
pub mod Formats
pub mod Durations
pub mod Validity
pub mod Loading
use clickhouse_backup.Base.{
  ℕ, ◌*◌, Text, codes, Bool, true, false, List, [], ◌∷◌, ℤ, pos, Result, ok, err, ◌>>=◌, ◌>>◌,
}
use Formats.{get_archive_writer}
use Durations.{parse_duration}

pub record GeneralConfig : Type 0 where
  pub remote_storage : Text
  pub disable_progress_bar : Bool
  pub backups_to_keep_local : ℤ
  pub backups_to_keep_remote : ℤ

pub record GcsConfig : Type 0 where
  pub credentials_file : Text
  pub credentials_json : Text
  pub bucket : Text
  pub path : Text
  pub compression_level : ℤ
  pub compression_format : Text

pub record AzureBlobConfig : Type 0 where
  pub endpoint_suffix : Text
  pub account_name : Text
  pub account_key : Text
  pub shared_access_signature : Text
  pub container : Text
  pub path : Text
  pub compression_level : ℤ
  pub compression_format : Text
  pub sse_key : Text

pub record S3Config : Type 0 where
  pub access_key : Text
  pub secret_key : Text
  pub bucket : Text
  pub endpoint : Text
  pub region : Text
  pub acl : Text
  pub force_path_style : Bool
  pub path : Text
  pub disable_ssl : Bool
  pub part_size : ℕ
  pub compression_level : ℤ
  pub compression_format : Text
  pub sse : Text
  pub disable_cert_verification : Bool
  pub debug : Bool

pub record CosConfig : Type 0 where
  pub row_url : Text
  pub timeout : Text
  pub secret_id : Text
  pub secret_key : Text
  pub path : Text
  pub compression_format : Text
  pub compression_level : ℤ
  pub debug : Bool

pub record FtpConfig : Type 0 where
  pub address : Text
  pub timeout : Text
  pub username : Text
  pub password : Text
  pub tls : Bool
  pub path : Text
  pub compression_format : Text
  pub compression_level : ℤ
  pub debug : Bool

pub record ClickHouseConfig : Type 0 where
  pub username : Text
  pub password : Text
  pub host : Text
  pub port : ℕ
  pub data_path : Text
  pub skip_tables : List Text
  pub timeout : Text
  pub freeze_by_part : Bool

pub record ApiConfig : Type 0 where
  pub listen_addr : Text
  pub enable_metrics : Bool
  pub enable_pprof : Bool
  pub username : Text
  pub password : Text

pub record Config : Type 0 where
  pub general : GeneralConfig
  pub click_house : ClickHouseConfig
  pub s3 : S3Config
  pub gcs : GcsConfig
  pub cos : CosConfig
  pub api : ApiConfig
  pub ftp : FtpConfig
  pub azure_blob : AzureBlobConfig

-- `DefaultConfig`: what it does not name is Go's zero value.
unfoldable pub default_config : Config
default_config = record {
  general = record {
    remote_storage = codes "s3";
    disable_progress_bar = false;
    backups_to_keep_local = pos 0;
    backups_to_keep_remote = pos 0;
  };
  click_house = record {
    username = codes "default";
    password = [];
    host = codes "localhost";
    port = 9000;
    data_path = [];
    skip_tables = codes "system.*" ∷ [];
    timeout = codes "5m";
    freeze_by_part = false;
  };
  s3 = record {
    access_key = [];
    secret_key = [];
    bucket = [];
    endpoint = [];
    region = codes "us-east-1";
    acl = codes "private";
    force_path_style = false;
    path = [];
    disable_ssl = false;
    part_size = 100 * 1024 * 1024;
    compression_level = pos 1;
    compression_format = codes "gzip";
    sse = [];
    disable_cert_verification = false;
    debug = false;
  };
  gcs = record {
    credentials_file = [];
    credentials_json = [];
    bucket = [];
    path = [];
    compression_level = pos 1;
    compression_format = codes "gzip";
  };
  cos = record {
    row_url = [];
    timeout = codes "2m";
    secret_id = [];
    secret_key = [];
    path = [];
    compression_format = codes "gzip";
    compression_level = pos 1;
    debug = false;
  };
  api = record {
    listen_addr = codes "localhost:7171";
    enable_metrics = false;
    enable_pprof = false;
    username = [];
    password = [];
  };
  ftp = record {
    address = [];
    timeout = codes "2m";
    username = [];
    password = [];
    tls = false;
    path = [];
    compression_format = codes "gzip";
    compression_level = pos 1;
    debug = false;
  };
  azure_blob = record {
    endpoint_suffix = codes "core.windows.net";
    account_name = [];
    account_key = [];
    shared_access_signature = [];
    container = [];
    path = [];
    compression_level = pos 1;
    compression_format = codes "gzip";
    sse_key = [];
  };
}

-- The result of a call without its value.
abbrev pub check {ℓ} : {A : Type ℓ} → Result A → Result (Unit {0})
check (ok a) = ok tt
check (err e) = err e

unfoldable pub validate_config : Config → Result (Unit {0})
validate_config config = do
  check (get_archive_writer config.s3.compression_format config.s3.compression_level)
  check (get_archive_writer config.gcs.compression_format config.gcs.compression_level)
  check (parse_duration config.click_house.timeout)
  check (parse_duration config.cos.timeout)
  check (parse_duration config.ftp.timeout)
