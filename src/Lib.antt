-- ===== src/Lib.antt =====
-- A verification library for clickhouse-backup, a tool that makes backups of ClickHouse tables and keeps
-- them on disk and in remote storages.
--
-- The program's parts. A backup is a directory of schema files and frozen data. The operations of
-- pkg/chbackup/backup.go create, restore, upload, download and remove backups; they choose tables by
-- patterns, order what a restore creates, and reach the remote side through a backup destination
-- (pkg/chbackup/backup_destination.go), which lists backups from the files that a storage shows, and
-- removes the oldest ones. A REST server (pkg/chbackup/server.go) offers the operations to many clients
-- at once: it guards them by one lock, logs the commands, counts results, and leaves the long ones to
-- goroutines. The upload to Azure (pkg/azblob/chunkwriting.go) cuts a stream into blocks that several
-- writers stage at once.
--
-- The files.
-- - Base and its children: bytes and texts, lists, Go maps, results with Go's errors, stable sorting,
--   paths, the text of dates, and `filepath.Match` of the standard library.
-- - Retention: `GetBackupsToDelete` (pkg/chbackup/utils.go). Retention/Oldest has its theorem.
-- - Remote: `BackupList`, `RemoveBackup`, `RemoveOldBackups` (pkg/chbackup/backup_destination.go) as
--   functions of a storage's state. A storage is a record of operations; what deletion relies on is
--   `DeletesOnly` in Remote/Memory, which a storage in memory satisfies. The order in which Go visits
--   a map is a parameter. Remote/Listing and Remote/Removal have the theorems.
-- - Config: the sections, `DefaultConfig` and `validateConfig` (pkg/chbackup/config.go); Config/Formats
--   the archive formats (pkg/chbackup/utils.go); Config/Durations `time.ParseDuration`;
--   Config/Loading `LoadConfig`; Config/Validity the theorems.
-- - Names: `TablePathEncode` (pkg/chbackup/utils.go); Names/Roundtrip.
-- - Tables: the table types and their order (pkg/chbackup/clickhouse.go), the choice by patterns
--   (pkg/chbackup/backup.go); Tables/Schema `parseSchemaPattern`, over the files that the walk shows.
--   Tables/Choice, Tables/Order and Tables/Schema/Creation have the theorems.
-- - Local: `ListLocalBackups`, `GetLocalBackup`, `RemoveBackupLocal`, `RemoveOldBackupsLocal`
--   (pkg/chbackup/backup.go) over a machine, a record of what they use of the file system; Local/Removal.
-- - Freeze: `Freeze` (pkg/chbackup/backup.go) over a freezer, a record of what it uses; Freeze/Guard.
-- - Files: the file helpers of pkg/chbackup/utils.go over a disk, a record of what they use beside the
--   machine.
-- - Streams: what an upload and a download share (pkg/chbackup/backup_destination.go); Streams/Upload
--   `CompressedStreamUpload`, Streams/Download `CompressedStreamDownload`, over a machine, a disk, a
--   storage and a codec, which stands for the archiver and JSON packages. What they rely on is stated
--   by `CodecLaws`, `HoldsFiles`, `FileLaws`, `NeverFails` and `KeepsOnConnect`, which the
--   machine, the storage and the codec of Streams/Memory satisfy. Packing, Truncation, Extraction,
--   Roundtrip and Termination have the theorems. Remote/Destination is
--   `NewBackupDestination`.
-- - Clickhouse: the client (pkg/chbackup/clickhouse.go) over a connection, a record of queries and
--   statements; Clickhouse/Saved the parts of a backup, Clickhouse/Interfaces the client as what Restore
--   and Freeze ask for; Clickhouse/Freezing and Clickhouse/Grouping the theorems.
-- - Operations: `CreateBackup`, `Clean`, `getTables`, `PrintTables` (pkg/chbackup/backup.go);
--   Operations/Transfer `Upload`, `Download`, `RemoveBackupRemote`, `getRemoteBackups`,
--   `PrintRemoteBackups`; Operations/Printing the lists of backups; Operations/Creation,
--   Operations/Cleaning and Operations/Exchange the theorems.
-- - Restore: `Restore`, `restoreSchema`, `RestoreData` (pkg/chbackup/backup.go), `CreateDatabase`,
--   `CreateTable` (pkg/chbackup/clickhouse.go) over a machine and a database; Restore/Flow.
-- - Server: Response (`writeError`, `sendResponse`), Status (`AsyncStatus`), Api (`APIServer`, `Metrics`),
--   Handlers with Queries, Integration, Auth, Jobs (what goroutines do), Routes and Loop model
--   pkg/chbackup/server.go, one function for each handler. A handler maps a request, the state of the
--   server and the state of the world to an exchange, or to `none` where it panics. The operations are
--   a record over an unknown world. Threads takes handlers and goroutines apart into the atomic steps
--   that they make on the lock and the log; Threads/Invariant and Threads/Overlap are about every
--   interleaving of them.
-- - Azblob: Base64 and Ids (the block ids), Copier (the reader and its writers as a step relation) of
--   pkg/azblob/chunkwriting.go; Copier/Invariant, Copier/Input, Copier/Reading,
--   Copier/Done, Copier/Commit and Copier/Blob are about uploads that succeed, Copier/Deadlock about one that waits for ever.
-- - Clients: the storage clients (pkg/chbackup/s3.go, gcs.go, cos.go, ftp.go, azblob.go) as storages, each
--   over a record of the calls of its service's package; Clients/Paging is about listings in parts,
--   Clients/Deletion about deletions through the client of S3, on a service that keeps to `S3Laws`.
-- - Cli: the commands of main.go, each by the operations that it runs.
-- - Tests: the theorems and definitions on concrete inputs.
--
-- Bounds and fuel. Block numbers are 32-bit and wrap around. `time.ParseDuration` and `filepath.Match`
-- run on the length of their input as fuel; each round reads at least a byte of it, and any larger fuel
-- gives the same: Config/Durations/Rounds and Base/Match/Rounds. The fuel of a download bounds the chain
-- of backups that each require the next; Streams/Termination says what is enough. The fuel of a listing of
-- Azure bounds its segments; Clients/Paging says what is enough. Sizes and instants are natural numbers.
-- A list's length stands for Go's `int`.
--
-- What is not modelled: the packages of the services, the reading of arguments, the files of YAML and the
-- metrics, which are libraries; the progress bar; the text of the connection string of ClickHouse; and
-- output, but for the lines of lists. A panic of `GetDataPath` is modelled where `getDataPath` of
-- pkg/chbackup/backup.go asks for the path. Where the client asks by itself, in a freeze or a walk over
-- schemas, its answer is a parameter, and such a panic is left out.
pub mod Base
pub mod Retention
pub mod Remote
pub mod Config
pub mod Files
pub mod Streams
pub mod Freeze
pub mod Clickhouse
pub mod Local
pub mod Operations
pub mod Clients
pub mod Cli
pub mod Names
pub mod Tables
pub mod Restore
pub mod Server
pub mod Azblob
pub mod Tests
