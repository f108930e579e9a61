-- ===== src/Server/Response/Headers.antt =====
-- The status line and the headers that an answer goes out with.
use clickhouse_backup.Base.{
  ℕ, ◌≡◌, refl, Text, codes, ◌++◌, false, Option, none, some, List, [], ◌∷◌, Error, arith, ◌==◌,
  ==_refl,
}
use clickhouse_backup.Base.Maps.{lookup, map_set, lookup-map_set}
use clickhouse_backup.Server.Response.{
  Chunk, Writer, write, write_header, set_header, set_no_store, send_response, write_error,
  content_type, json_type,
}

abbrev pub sent_headers : Writer → List (Text × Text)
sent_headers w = elim w.sent [ none ↦ [] | some (code, headers) ↦ headers ]

abbrev pub sent_code : Writer → Option ℕ
sent_code w = elim w.sent [ none ↦ none | some (code, headers) ↦ some code ]

-- `sendResponse` on a writer that has sent nothing sends its status code, with JSON as content
-- type, and adds its value to the body.
pub send_response-sent :
    (status_code : ℕ) (v : Chunk) (w : Writer)
    → w.sent ≡ none
    → (sent_code (send_response status_code v w) ≡ some status_code)
      × (lookup content_type (sent_headers (send_response status_code v w)) ≡ some json_type)
      × ((send_response status_code v w).body ≡ w.body ++ (v ∷ []))
unfolding send_response set_no_store write write_header set_header ◌==◌
send_response-sent status_code v w h =
    let pragma : (codes "Pragma" == content_type) ≡ false = refl in
    let cache : (codes "Cache-Control" == content_type) ≡ false = refl in
    ground (
      arith,
      h,
      ==_refl content_type,
      lookup-map_set (codes "Pragma") content_type (codes "no-cache") (
          map_set (codes "Cache-Control") (codes "no-store, no-cache, must-revalidate")
            (map_set content_type json_type w.headers)),
      lookup-map_set (codes "Cache-Control") content_type
          (codes "no-store, no-cache, must-revalidate") (map_set content_type json_type w.headers),
      lookup-map_set content_type content_type json_type w.headers,
    )

-- `writeError` on a writer that has sent nothing sends its status code with the headers set
-- before the call, and with none of those that it sets itself.
pub write_error-sent :
    (status_code : ℕ) (operation : Text) (e : Error) (w : Writer)
    → w.sent ≡ none
    → (write_error status_code operation e w).sent ≡ some (status_code, w.headers)
unfolding write_error set_no_store write write_header set_header
write_error-sent status_code operation e w h = rw h
