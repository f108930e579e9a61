-- ===== src/Tests/Deletion.antt =====
-- A deletion by the client of S3, from a service that gives each object a page of its own.
use clickhouse_backup.Base.{
  Text, codes, ◌≡◌, refl, sym, ap, ◌∙◌, true, false, not, none, List, [], ◌∷◌, map, keep_if, ok,
  err, not_found, pos,
}
use clickhouse_backup.Config.{default_config}
use clickhouse_backup.Remote.{RemoteFile, BackupDestination, remove_backup}
use clickhouse_backup.Remote.Memory.{other_than}
use clickhouse_backup.Remote.Removal.{begins_as}
use clickhouse_backup.Clients.{all_pages, refused}
use clickhouse_backup.Clients.S3.{S3Api, page_prefix}
use clickhouse_backup.Clients.Deletion.{S3Laws, list_pages-remove_backup}

abbrev page_each : List RemoteFile → List (List RemoteFile)
page_each = map (λ o. o ∷ [])

all_pages-page_each : (objects : List RemoteFile) → all_pages (page_each objects) ≡ objects
all_pages-page_each [] = refl
all_pages-page_each (o ∷ objects) = ap (λ l. o ∷ l) (all_pages-page_each objects)

abbrev memory_s3 : S3Api
memory_s3 = record {
  State = List RemoteFile;
  new_session = λ config s. (s, none);
  head_object = λ s bucket key. refused (codes "NotFound") not_found;
  get_object = λ s bucket key. err not_found;
  upload = λ input s. (s, none);
  delete_object = λ bucket key s. (keep_if (other_than key) s, none);
  list_pages = λ s bucket prefix size. (page_each s, none);
  describe = λ bucket key. key;
}

memory_s3-S3Laws : S3Laws memory_s3
memory_s3-S3Laws = record {
  list_pages-delete_object = λ s s' bucket key prefix size pages deleted listed. (
    page_each s',
    refl,
    all_pages-page_each s'
        ∙ sym (ap (λ r. r.0) deleted)
        ∙ ap (keep_if (other_than key))
            (sym (all_pages-page_each s) ∙ ap all_pages (ap (λ r. r.0) listed)),
  );
}

abbrev stored : List RemoteFile
stored =
    record { size = 1; name = codes "p/b.tar"; last_modified = 1 }
    ∷ record { size = 2; name = codes "p/a.tar"; last_modified = 2 }
    ∷ []

abbrev bd : BackupDestination
bd = record {
  path = codes "p";
  compression_format = codes "tar";
  compression_level = pos 1;
  disable_progress_bar = true;
  backups_to_keep = pos 0;
}

abbrev left : List RemoteFile
left = record { size = 1; name = codes "p/b.tar"; last_modified = 1 } ∷ []

list_pages-remove_backup_example :
    (pages' : List (List RemoteFile)) × (memory_s3.list_pages left default_config.s3.bucket
        (page_prefix default_config.s3.path)
        1000
      ≡ (pages', none))
    × (all_pages pages'
        ≡ keep_if (λ o. not (begins_as bd (codes "a") o)) (all_pages (page_each stored)))
unfolding remove_backup clickhouse_backup.Remote.delete_files clickhouse_backup.Remote.objects_of
    clickhouse_backup.Base.has_prefix clickhouse_backup.Base.Paths.path_join
list_pages-remove_backup_example =
    list_pages-remove_backup memory_s3 memory_s3-S3Laws default_config.s3 bd (codes "a") stored left
      (page_each stored) refl refl
