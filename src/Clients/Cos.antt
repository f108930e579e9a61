-- ===== src/Clients/Cos.antt =====
-- The client of Tencent's object storage: pkg/chbackup/cos.go, with `parseTime` of pkg/chbackup/utils.go.
use clickhouse_backup.Base.{
  ℕ, ℤ, Text, codes, Option, none, some, List, [], ◌∷◌, map, Error, Result, ok, err,
}
use clickhouse_backup.Config.{CosConfig}
use clickhouse_backup.Config.Durations.{parse_duration}
use clickhouse_backup.Remote.{RemoteFile, RemoteStorage}
use clickhouse_backup.Clients.{Answer, answered, refused, or_not_found}

-- A response to a request for an object: its length, the path of the URL, and the header `Date`.
pub record ObjectResponse : Type 0 where
  pub content_length : ℕ
  pub url_path : Text
  pub date : Text
  pub body : Text

pub record CosObject : Type 0 where
  pub key : Text
  pub size : ℕ
  pub last_modified : Text

-- The package `cos-go-sdk-v5`, `url.Parse`, and `time.Parse` with a layout. `new_client` is given the
-- timeout, and `bucket_get` gives the first page of a listing.
pub record CosApi : Type 1 where
  pub State : Type 0
  pub url_error : Text → Option Error
  pub time_parse : Text → Text → Option ℕ
  pub new_client : CosConfig → ℤ → State → State
  pub bucket_head : State → Option Error
  pub bucket_get : State → Text → Result (List CosObject)
  pub object_get : State → Text → Answer ObjectResponse
  pub object_put : Text → Text → State → State × Option Error
  pub object_delete : Text → State → State × Option Error

module _ (A : CosApi) where
  -- The first layout that fits gives the time; none gives the zero time.
  unfoldable pub parse_with : List Text → Text → ℕ
  parse_with [] text = 0
  parse_with (layout ∷ layouts) text = elim (A.time_parse layout text) [
    | some t ↦ t
    | none ↦ parse_with layouts text
  ]

  abbrev pub parse_time : Text → ℕ
  parse_time = parse_with (
      codes "Mon, 02 Jan 2006 15:04:05 GMT"
      ∷ codes "Monday, 02-Jan-06 15:04:05 MST"
      ∷ codes "Mon Jan _2 15:04:05 2006"
      ∷ codes "2006-01-02T15:04:05Z07:00"
      ∷ [])

  abbrev connect_with : CosConfig → Result ℤ → A.State → A.State × Option Error
  connect_with config (err e) s = (s, some e)
  connect_with config (ok timeout) s =
      let s' = A.new_client config timeout s in (s', A.bucket_head s')

  unfoldable pub connect : CosConfig → A.State → A.State × Option Error
  connect config s = elim (A.url_error config.row_url) [
    | some e ↦ (s, some e)
    | none ↦ connect_with config (parse_duration config.timeout) s
  ]

  -- The whole object is asked for, and its date is that of the response.
  abbrev response_file : Result ObjectResponse → Result RemoteFile
  response_file (err e) = err e
  response_file (ok r) =
      ok (record { size = r.content_length; name = r.url_path; last_modified = parse_time r.date })

  abbrev body_of : Answer ObjectResponse → Result Text
  body_of (refused code e) = err e
  body_of (answered r) = ok r.body

  abbrev object_file : CosObject → RemoteFile
  object_file v = record { size = v.size; name = v.key; last_modified = parse_time v.last_modified }

  abbrev pub visit_page : Result (List CosObject) → List RemoteFile × Option Error
  visit_page (err e) = ([], some e)
  visit_page (ok contents) = (map object_file contents, none)

  abbrev pub cos_storage : CosConfig → RemoteStorage
  cos_storage config = record {
    State = A.State;
    kind = codes "COS";
    get_file = λ s key. response_file (or_not_found (codes "NoSuchKey") (A.object_get s key));
    delete_file = λ s key. A.object_delete key s;
    connect = connect config;
    walk = λ s path. visit_page (A.bucket_get s config.path);
    get_file_reader = λ s key. body_of (A.object_get s key);
    put_file = λ s key content. A.object_put key content s;
  }
