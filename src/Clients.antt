-- ===== src/Clients.antt =====
-- The storage clients of pkg/chbackup: s3.go, gcs.go, cos.go, ftp.go and azblob.go, each over the calls of
-- the service's own package, as the interface that the backup destination uses.
pub mod S3
pub mod Gcs
pub mod Cos
pub mod Ftp
pub mod Azure
pub mod Paging
pub mod Deletion
use clickhouse_backup.Base.{
  Text, codes, ◌==◌, Bool, true, false, Option, none, some, List, [], ◌∷◌, ◌++◌, Error, not_found,
  Result, ok, err, if◌then◌else◌,
}
use clickhouse_backup.Remote.{RemoteFile}

-- What a service answers: a value, or an error with its code.
pub data Answer (A : Type 0) : Type 0 where
  answered : A → Answer A
  refused : Text → Error → Answer A

-- The error without its code.
abbrev pub plain_answer : {A : Type 0} → Answer A → Result A
plain_answer (answered a) = ok a
plain_answer (refused code e) = err e

-- The code for a missing file becomes `ErrNotFound`, every other error is passed on.
abbrev pub or_not_found : {A : Type 0} → Text → Answer A → Result A
or_not_found missing (answered a) = ok a
or_not_found missing (refused code e) = if code == missing then err not_found else err e

-- The files of the pages, in order.
abbrev pub all_pages : List (List RemoteFile) → List RemoteFile
all_pages [] = []
all_pages (page ∷ pages) = page ++ all_pages pages
