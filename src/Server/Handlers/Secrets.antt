-- ===== src/Server/Handlers/Secrets.antt =====
-- What `httpConfigHandler` shows of the secrets in the configuration.
use clickhouse_backup.Base.{◌≡◌, refl, ap, Text, List, [], ◌∷◌}
use clickhouse_backup.Config.{Config, AzureBlobConfig}
use clickhouse_backup.Server.Response.{Writer, Chunk, yaml, write}
use clickhouse_backup.Server.Api.{ApiServer}
use clickhouse_backup.Server.Handlers.Queries.{mask_config, http_config_handler}

pub record Secrets : Type 0 where
  pub click_house_password : Text
  pub api_password : Text
  pub s3_secret_key : Text
  pub gcs_credentials_json : Text
  pub cos_secret_key : Text
  pub ftp_password : Text

unfoldable pub with_secrets : Secrets → Config → Config
with_secrets s config = record config {
  click_house = record (config.click_house) { password = s.click_house_password };
  api = record (config.api) { password = s.api_password };
  s3 = record (config.s3) { secret_key = s.s3_secret_key };
  gcs = record (config.gcs) { credentials_json = s.gcs_credentials_json };
  cos = record (config.cos) { secret_key = s.cos_secret_key };
  ftp = record (config.ftp) { password = s.ftp_password };
}

-- What the handler of `/backup/config` writes does not depend on the passwords of ClickHouse, of
-- the API and of FTP, on the secret keys of S3 and COS, or on the credentials of GCS.
pub http_config_handler_hides :
    (W : Type 0) (world : W) (api : ApiServer) (s t : Secrets)
    → (http_config_handler (record api { config = with_secrets s api.config }) world).writer
      ≡ (http_config_handler (record api { config = with_secrets t api.config }) world).writer
unfolding http_config_handler mask_config with_secrets
http_config_handler_hides W world api s t = refl

-- The Azure section of the first configuration that is written, or `d`.
azure_of : AzureBlobConfig → List Chunk → AzureBlobConfig
azure_of d [] = d
azure_of d (yaml c ∷ l) = c.azure_blob
azure_of d (chunk ∷ l) = azure_of d l

-- Two servers whose handlers of `/backup/config` write the same have the same Azure section, its
-- account key, its shared access signature and its encryption key included.
pub http_config_handler_shows :
    (W : Type 0) (world : W) (api api' : ApiServer)
    → (http_config_handler api world).writer ≡ (http_config_handler api' world).writer
    → api.config.azure_blob ≡ api'.config.azure_blob
unfolding http_config_handler mask_config write azure_of
    clickhouse_backup.Server.Response.set_no_store
http_config_handler_shows W world api api' e = ap (λ w. azure_of api.config.azure_blob w.body) e
