-- ===== src/Streams/Memory.antt =====
-- A machine, a storage and a codec in memory, which have the laws that the theorems about
-- pkg/chbackup/backup_destination.go ask for.
mod Coding
pub use Coding.{memory_codec, memory_codec-CodecLaws}
use clickhouse_backup.Base.{
  false, sym, if◌then◌else◌, ℕ, zero, suc, Text, codes, ◌==◌, ==_refl, ==_comm, ◌≡◌, refl, ap, ◌∙◌,
  Bool, true, not, Option, none, some, List, [], ◌∷◌, ◌++◌, map, keep_if, has_prefix, skip, split,
  length, Result, ok, err, Error, already_exists, not_found, not_exist, arith,
}
use clickhouse_backup.Base.Maps.{lookup, map_set, lookup-map_set}
use clickhouse_backup.Base.Paths.{slash}
use clickhouse_backup.Local.{Machine}
use clickhouse_backup.Files.{Disk, Walked, regular}
use clickhouse_backup.Remote.{RemoteStorage, RemoteFile}
use clickhouse_backup.Streams.{Codec, Entry, MetaFile}
use clickhouse_backup.Streams.Extraction.{NeverFails, FileLaws}
use clickhouse_backup.Streams.Roundtrip.{CodecLaws, HoldsFiles}
use clickhouse_backup.Streams.Termination.{KeepsOnConnect}

-- Files by their paths.
abbrev pub Store : Type 0
Store = List (Text × Text)

abbrev lies_below : Text → Text × Text → Bool
lies_below path (name, content) = has_prefix name (path ++ slash)

abbrev pub found_in : Error → Option Text → Result Text
found_in e none = err e
found_in e (some content) = ok content

abbrev read_in : Store → Text → Result Text
read_in s path = found_in (not_exist (codes "no such file or directory")) (lookup path s)

abbrev first_of : List Text → Text
first_of [] = []
first_of (part ∷ parts) = part

-- Every path is a directory.
abbrev pub memory_machine : Machine
memory_machine = record {
  State = Store;
  ask_data_path = λ config s. some (ok (codes "/data"));
  read_names = λ s path.
      ok
        (map (λ f. first_of (split b'/' (skip f.0 (path ++ slash)))) (keep_if (lies_below path) s));
  stat = λ s path. ok (record { is_dir = true; mod_time = 0 });
  remove_all = λ s path. (keep_if (λ f. not (lies_below path f)) s, none);
}

abbrev walked_file : Text × Text → Walked
walked_file (name, content) = record { path = name; kind = regular; failure = none }

-- A link in memory is a copy.
abbrev linked : Option Text → Option Text → Text → Store → Store × Option Error
linked none there new s = (s, some (not_exist (codes "no such file or directory")))
linked (some content) none new s = (map_set new content s, none)
linked (some content) (some other) new s = (s, some (already_exists (codes "file exists")))

-- A file is the same as itself only.
abbrev pub memory_disk : Disk memory_machine
memory_disk = record {
  walk = λ s path. map walked_file (keep_if (lies_below path) s);
  read_file = read_in;
  same_file = λ s a b. a == b;
  mkdir_all = λ path s. (s, none);
  create_file = λ path content s. (map_set path content s, none);
  rename = λ a b s. (s, none);
  link = λ a b s. linked (lookup a s) (lookup b s) b s;
  chown = λ path s. (s, none);
  write_temp = λ s. none;
}

pub memory_disk-NeverFails : NeverFails memory_machine memory_disk
memory_disk-NeverFails = record {
  mkdir_all-none = λ path s. refl;
  create_file-none = λ path content s. refl;
}

pub memory_disk-FileLaws : FileLaws memory_machine memory_disk
memory_disk-FileLaws = record {
  read_file-create_file =
      λ path content s fine. ground (arith, lookup-map_set path path content s, ==_refl path);
  read_file-create_other = λ path content other s differs fine.
      ground (arith, lookup-map_set path other content s, ==_comm other path, differs);
  read_file-mkdir_all = λ path other s. refl;
}

abbrev sized : Text → Result Text → Result RemoteFile
sized key (err e) = err e
sized key (ok content) = ok (record { size = length content; name = key; last_modified = 0 })

abbrev file_of : Text × Text → RemoteFile
file_of (key, content) = record { size = length content; name = key; last_modified = 0 }

abbrev pub memory_contents : RemoteStorage
memory_contents = record {
  State = Store;
  kind = codes "memory";
  get_file = λ s key. sized key (found_in not_found (lookup key s));
  delete_file = λ s key. (keep_if (λ f. not (f.0 == key)) s, none);
  connect = λ s. (s, none);
  walk = λ s path. (map file_of s, none);
  get_file_reader = λ s key. found_in not_found (lookup key s);
  put_file = λ s key content. (map_set key content s, none);
}

pub memory_contents-KeepsOnConnect : KeepsOnConnect memory_contents
memory_contents-KeepsOnConnect = record { get_file_reader-connect = λ r key. refl }

found :
    (r r' : Store) (key content : Text)
    → memory_contents.put_file r key content ≡ (r', none)
    → lookup key r' ≡ some content
found r r' key content put = ground (arith, lookup-map_set key key content r, ==_refl key, put)

pub memory_contents-HoldsFiles : HoldsFiles memory_contents
memory_contents-HoldsFiles = record {
  connect-none = λ r. refl;
  get_file-put_file =
      λ r r' key content put. (file_of (key, content), rw (found r r' key content put) refl);
  get_file_reader-put_file = λ r r' key content put. rw (found r r' key content put) refl;
}
