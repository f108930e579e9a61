-- ===== src/Server/Response.antt =====
-- `http.ResponseWriter`, with `writeError` and `sendResponse` of pkg/chbackup/utils.go.
pub mod Headers
use clickhouse_backup.Base.{
  ℕ, Text, codes, ◌++◌, Option, none, some, List, [], ◌∷◌, Error, error_text,
}
use clickhouse_backup.Base.Maps.{map_set}
use clickhouse_backup.Config.{Config}

-- What a handler writes: JSON objects by their fields, and lines of text.
pub data Chunk : Type 0 where
  json : List (Text × Text) → Chunk
  line : Text → Chunk
  json_list : List (List (Text × Text)) → Chunk
  yaml : Config → Chunk

-- `headers` is the map that `w.Header()` gives; `sent` is what went out with the status line.
pub record Writer : Type 0 where
  pub headers : List (Text × Text)
  pub sent : Option (ℕ × List (Text × Text))
  pub body : List Chunk

abbrev pub fresh_writer : Writer
fresh_writer = record { headers = []; sent = none; body = [] }

-- `w.Header().Set(key, value)`
unfoldable pub set_header : Text → Text → Writer → Writer
set_header key v w = record w { headers = map_set key v w.headers }

abbrev first_status :
    Option (ℕ × List (Text × Text)) → ℕ → List (Text × Text) → ℕ × List (Text × Text)
first_status none code headers = (code, headers)
first_status (some first) code headers = first

-- `w.WriteHeader(code)`: only the first call counts, with the headers of that moment.
unfoldable pub write_header : ℕ → Writer → Writer
write_header code w = record w { sent = some (first_status w.sent code w.headers) }

-- A write to the body sends the status 200 first, unless one is sent.
unfoldable pub write : Chunk → Writer → Writer
unfolding write_header
write chunk w = let w' = write_header 200 w in record w' { body = w.body ++ (chunk ∷ []) }

abbrev pub content_type : Text
content_type = codes "Content-Type"

abbrev pub json_type : Text
json_type = codes "application/json; charset=UTF-8"

-- A field that `omitempty` leaves out where it is empty.
abbrev pub optional : Text → Text → List (Text × Text)
optional key [] = []
optional key (c ∷ v) = (key, c ∷ v) ∷ []

unfoldable pub set_no_store : Writer → Writer
unfolding set_header
set_no_store w =
    set_header (codes "Pragma") (codes "no-cache")
      (set_header (codes "Cache-Control") (codes "no-store, no-cache, must-revalidate") w)

unfoldable pub write_error : ℕ → Text → Error → Writer → Writer
unfolding set_no_store write write_header
write_error status_code operation e w =
    write
      (json (
        ((codes "status", codes "error") ∷ optional (codes "operation") operation)
        ++ ((codes "error", error_text e) ∷ [])))
      (set_no_store (set_header content_type json_type (write_header status_code w)))

unfoldable pub send_response : ℕ → Chunk → Writer → Writer
unfolding set_no_store write write_header
send_response status_code v w =
    write v (write_header status_code (set_no_store (set_header content_type json_type w)))

-- `http.Error(w, message, code)`
unfoldable pub http_error : Text → ℕ → Writer → Writer
unfolding write write_header set_header
http_error message code w = write (line message) (
    write_header code (
      set_header (codes "X-Content-Type-Options") (codes "nosniff")
        (set_header content_type (codes "text/plain; charset=utf-8") w)))
