-- ===== src/Clients/Deletion.antt =====
-- Deletions by the client of pkg/chbackup/s3.go, as the removal of a backup relies on them.
use clickhouse_backup.Base.{ℕ, Text, not, ◌≡◌, refl, ap, Option, none, some, List, keep_if, Error}
use clickhouse_backup.Config.{S3Config}
use clickhouse_backup.Remote.{RemoteFile, BackupDestination, remove_backup}
use clickhouse_backup.Remote.Removal.{begins_as, walk-remove_backup}
use clickhouse_backup.Remote.Memory.{DeletesOnly, other_than}
use clickhouse_backup.Clients.{all_pages}
use clickhouse_backup.Clients.S3.{S3Api, delete_error, page_prefix, walk_pages, s3_storage}

-- What the service promises: behind a deletion that succeeds, a listing that showed some pages to the end
-- shows pages, cut as they may be, without the objects of that key and with the others as before.
pub record S3Laws (A : S3Api) : Type 0 where
  pub list_pages-delete_object :
      (s s' : A.State) (bucket key : Text) (prefix : Option Text) (size : ℕ)
      (pages : List (List RemoteFile))
      → A.delete_object bucket key s ≡ (s', none)
      → A.list_pages s bucket prefix size ≡ (pages, none)
      → (pages' : List (List RemoteFile)) × (A.list_pages s' bucket prefix size ≡ (pages', none))
        × (all_pages pages' ≡ keep_if (other_than key) (all_pages pages))

module _ (A : S3Api) (laws : S3Laws A) (config : S3Config) where
  -- A deletion through the client succeeds only if that of the service does.
  delete_error-none :
      (key : Text) (r : A.State × Option Error) (s' : A.State)
      → delete_error A config.bucket key r ≡ (s', none)
      → r ≡ (s', none)
  delete_error-none key (s, none) s' h = h
  delete_error-none key (s, some e) s' h = cc

  -- The pages of a walk of the client that succeeds are the service's.
  walk_pages-none :
      (s : A.State) (objects : List RemoteFile)
      → walk_pages A config s ≡ (objects, none)
      → (pages : List (List RemoteFile)) × (A.list_pages s config.bucket
            (page_prefix config.path)
            1000
          ≡ (pages, none))
        × (all_pages pages ≡ objects)
  walk_pages-none s objects h =
      let (pages, failure) = A.list_pages s config.bucket (page_prefix config.path) 1000 in
      (pages, ap (λ r. (pages, r)) (ap (λ r. r.1) h), ap (λ r. r.0) h)

  -- The client deletes just what it is told to, if the service does.
  pub s3_storage-DeletesOnly : DeletesOnly (s3_storage A config)
  s3_storage-DeletesOnly = record {
    walk-delete_file = λ s s' key path objects deleted walked.
        let (pages, listed, shown) = walk_pages-none s objects walked in
        let (pages', listed', left) =
          laws.list_pages-delete_object s s' config.bucket key (page_prefix config.path) 1000 pages
            (delete_error-none key (A.delete_object config.bucket key s) s' deleted) listed in
        rw (listed', left, shown) refl;
  }

  -- On a service of S3 that deletes just the objects of the key that it is told to: after a
  -- `RemoveBackup` without an error, the pages of a listing hold the files that they held before,
  -- in the same order, less those whose name begins with the backup's path, wherever the pages
  -- are cut.
  pub list_pages-remove_backup :
      (bd : BackupDestination) (name : Text) (s s' : A.State) (pages : List (List RemoteFile))
      → A.list_pages s config.bucket (page_prefix config.path) 1000 ≡ (pages, none)
      → remove_backup (s3_storage A config) bd name s ≡ (s', none)
      → (pages' : List (List RemoteFile)) × (A.list_pages s' config.bucket
            (page_prefix config.path)
            1000
          ≡ (pages', none))
        × (all_pages pages' ≡ keep_if (λ o. not (begins_as bd name o)) (all_pages pages))
  list_pages-remove_backup bd name s s' pages listed removed =
      walk_pages-none s' (keep_if (λ o. not (begins_as bd name o)) (all_pages pages)) (
        walk-remove_backup (s3_storage A config) s3_storage-DeletesOnly bd name s s'
          (all_pages pages) (rw listed refl) removed)
