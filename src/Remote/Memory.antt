-- ===== src/Remote/Memory.antt =====
-- A storage that keeps its files in a list, and what deletion relies on.
use clickhouse_backup.Base.{
  Text, codes, ◌==◌, ◌≡◌, Bool, none, List, [], ◌∷◌, ◌++◌, keep_if, not, not_found, Result, ok, err,
  length, if◌then◌else◌,
}
use clickhouse_backup.Remote.{RemoteFile, RemoteStorage}

abbrev pub find : Text → List RemoteFile → Result RemoteFile
find key [] = err not_found
find key (o ∷ objects) = if o.name == key then ok o else find key objects

abbrev pub other_than : Text → RemoteFile → Bool
other_than key o = not (o.name == key)

-- Every operation succeeds; a walk shows every file, as that of Google's storage does.
abbrev pub memory_storage : RemoteStorage
memory_storage = record {
  State = List RemoteFile;
  kind = codes "memory";
  get_file = λ s key. find key s;
  delete_file = λ s key. (keep_if (other_than key) s, none);
  connect = λ s. (s, none);
  walk = λ s path. (s, none);
  get_file_reader = λ s key. err not_found;
  put_file = λ s key content. (
    keep_if (other_than key) s
        ++ (record { size = length content; name = key; last_modified = 0 } ∷ []),
    none,
  );
}

-- What a successful deletion of a key does to a walk that succeeds: the files of that name are gone,
-- the others are shown as before.
pub record DeletesOnly (S : RemoteStorage) : Type 0 where
  pub walk-delete_file :
      (s s' : S.State) (key path : Text) (objects : List RemoteFile)
      → S.delete_file s key ≡ (s', none)
      → S.walk s path ≡ (objects, none)
      → S.walk s' path ≡ (keep_if (other_than key) objects, none)

pub memory_storage-DeletesOnly : DeletesOnly memory_storage
memory_storage-DeletesOnly = record { walk-delete_file = λ s s' key path objects d w. cc }
