-- ===== src/Clients/Azure.antt =====
-- The client of Azure's blob storage: pkg/chbackup/azblob.go.
use clickhouse_backup.Base.{
  ℕ, zero, suc, Text, codes, ◌==◌, Bool, true, not, nat_beq, length, Option, none, some, List, [],
  ◌∷◌, ◌++◌, map, Error, error_text, errorf, Result, ok, err, if◌then◌else◌,
}
use clickhouse_backup.Base.Paths.{is_empty}
use clickhouse_backup.Config.{AzureBlobConfig}
use clickhouse_backup.Remote.{RemoteFile, RemoteStorage}
use clickhouse_backup.Clients.{Answer, answered, refused, or_not_found}

-- How a request is signed.
pub data Credential : Type 0 where
  shared_key : Text → Text → Credential
  anonymous : Credential

-- A blob of a listing, whose length may be missing.
pub record BlobItem : Type 0 where
  pub name : Text
  pub content_length : Option ℕ
  pub last_modified : ℕ

-- A segment of a listing. The marker of the last one is empty.
pub record Segment : Type 0 where
  pub items : List BlobItem
  pub next_marker : Option Text

-- The package `azure-storage-blob-go`, `url.Parse`, SHA-256 and the base64 of the standard library.
-- `create_container` creates one that is open to public reading, and `set_container` keeps the
-- container and the key. `upload_stream` is that of pkg/azblob, with its sizes.
pub record AzureApi : Type 1 where
  pub State : Type 0
  pub key_error : Text → Text → Option Error
  pub url_error : Text → Option Error
  pub create_container : Credential → Text → Text → State → State × Answer (Unit {0})
  pub decode_base64 : Text → Result Text
  pub set_container : Credential → Text → Text → Option Text → State → State
  pub get_properties : State → Text → Answer RemoteFile
  pub download : State → Text → Result Text
  pub upload_stream : ℕ → ℕ → Text → Text → State → State × Option Error
  pub delete : Text → State → State × Option Error
  pub list_segment : State → Option Text → Text → Result Segment

-- `mrk.NotDone()`
abbrev pub not_done : Option Text → Bool
not_done none = true
not_done (some marker) = not (is_empty marker)

abbrev pub item_file : BlobItem → RemoteFile
item_file blob = record {
  size = elim blob.content_length [ some n ↦ n | none ↦ 0 ];
  name = blob.name;
  last_modified = blob.last_modified;
}

module _ (A : AzureApi) where
  abbrev endpoint : AzureBlobConfig → Text
  endpoint c = codes "https://" ++ c.account_name ++ codes ".blob." ++ c.endpoint_suffix

  abbrev with_key : AzureBlobConfig → Option Error → Result (Credential × Text)
  with_key c (some e) = err e
  with_key c none = ok (shared_key c.account_name c.account_key, endpoint c)

  -- The `switch` over the settings: how to sign, and the URL.
  unfoldable pub choose_credential : AzureBlobConfig → Result (Credential × Text)
  choose_credential c =
      if is_empty c.endpoint_suffix
      then err (errorf (codes "azblob: endpoint suffix not set"))
      else if is_empty c.container
      then err (errorf (codes "azblob: container name not set"))
      else if is_empty c.account_name
      then err (errorf (codes "azblob: account name not set"))
      else if not (is_empty c.account_key)
      then with_key c (A.key_error c.account_name c.account_key)
      else if not (is_empty c.shared_access_signature)
      then ok (anonymous, endpoint c ++ codes "?" ++ c.shared_access_signature)
      else err (errorf (codes "azblob: account key or SAS must be set"))

  abbrev sse_error : Text
  sse_error = codes "azblob: malformed SSE key, must be base64-encoded 256-bit key"

  -- The key that blobs are encrypted with, if one is set.
  abbrev encryption_key : Text → Result (Option Text)
  encryption_key [] = ok none
  encryption_key (c ∷ text) = elim (A.decode_base64 (c ∷ text)) [
    | err e ↦ err (errorf (sse_error ++ codes ": " ++ error_text e))
    | ok key ↦ if nat_beq (length key) 32 then ok (some (c ∷ text)) else err (errorf sse_error)
  ]

  abbrev keep_container :
      AzureBlobConfig → Credential → Text → Result (Option Text) → A.State → A.State × Option Error
  keep_container c credential url (err e) s = (s, some e)
  keep_container c credential url (ok key) s =
      (A.set_container credential url c.container key s, none)

  -- A container that is there already is no error.
  abbrev after_create :
      AzureBlobConfig → Credential → Text → A.State × Answer (Unit {0}) → A.State × Option Error
  after_create c credential url (s, answered _) =
      keep_container c credential url (encryption_key c.sse_key) s
  after_create c credential url (s, refused code e) =
      if code == codes "ContainerAlreadyExists"
      then keep_container c credential url (encryption_key c.sse_key) s
      else (
        s,
        some (
            errorf (
              codes "azblob: failed to create container "
              ++ c.container
              ++ codes ": "
              ++ error_text e)),
      )

  abbrev create_at : AzureBlobConfig → Result (Credential × Text) → A.State → A.State × Option Error
  create_at c (err e) s = (s, some e)
  create_at c (ok (credential, url)) s = elim (A.url_error url) [
    | some e ↦ (s, some e)
    | none ↦ after_create c credential url (A.create_container credential url c.container s)
  ]

  unfoldable pub connect : AzureBlobConfig → A.State → A.State × Option Error
  connect c s = create_at c (choose_credential c) s

  -- The loop over the segments of a listing, which the fuel bounds.
  abbrev pub add_segment :
      Result Segment
      → (Option Text → List RemoteFile × Option Error)
      → List RemoteFile × Option Error
  add_segment (err e) rest = ([], some e)
  add_segment (ok segment) rest =
      let (files, failure) = rest segment.next_marker in
      (map item_file segment.items ++ files, failure)

  unfoldable pub walk_from : ℕ → Text → Option Text → A.State → List RemoteFile × Option Error
  walk_from zero prefix marker s = ([], none)
  walk_from (suc fuel) prefix marker s =
      let segment =
        add_segment (A.list_segment s marker prefix) (λ next. walk_from fuel prefix next s) in
      if not_done marker then segment else ([], none)

  abbrev pub azblob_storage : ℕ → AzureBlobConfig → RemoteStorage
  azblob_storage fuel config = record {
    State = A.State;
    kind = codes "azblob";
    get_file = λ s key. or_not_found (codes "BlobNotFound") (A.get_properties s key);
    delete_file = λ s key. A.delete key s;
    connect = connect config;
    walk = λ s path. walk_from fuel config.path none s;
    get_file_reader = A.download;
    put_file = λ s key content. A.upload_stream 2097152 3 key content s;
  }
