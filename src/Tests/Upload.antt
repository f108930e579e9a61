-- ===== src/Tests/Upload.antt =====
-- An upload of three bytes in blocks of two, with one writer.
use clickhouse_backup.Base.{
  some, errorf, codes, ℕ, ◌≡◌, refl, inl, Text, true, false, none, List, [], ◌∷◌, NodupBy, arith,
}
use clickhouse_backup.Azblob.Base64.{IsBytes}
use clickhouse_backup.Azblob.Ids.{new_id, next, block_id, block_id_injective, same_text}
use clickhouse_backup.Azblob.Copier.{
  Chunk, Phase, committed, Copier, new_copier, get_err, read_full, issue, send_chunk, close, read,
  send, take_chunk, stage, finish, Reach, here, next_step,
}
use clickhouse_backup.Azblob.Copier.Deadlock.{IsStuck, copier_deadlock}
use clickhouse_backup.Azblob.Copier.Blob.{blob_of, blob_of-upload}
use clickhouse_backup.Azblob.Copier.Commit.{IsUpload, committed-IsUpload, committed_upload-NodupBy}

abbrev uuid : Text
uuid = 1 ∷ 2 ∷ 3 ∷ 4 ∷ 5 ∷ 6 ∷ 7 ∷ 8 ∷ 9 ∷ 10 ∷ 11 ∷ 12 ∷ 13 ∷ 14 ∷ 15 ∷ 16 ∷ []

uuid-IsBytes : IsBytes uuid
uuid-IsBytes = omega arith

block_id_injective_test : ◌≡◌ {A = ℕ} 3 3
block_id_injective_test = block_id_injective uuid 3 3 uuid-IsBytes (omega arith) (omega arith) refl

abbrev chunk : ℕ → Text → Chunk
chunk n bytes = record { buffer = bytes; id = block_id uuid n }

abbrev start : Copier
start = new_copier uuid (65 ∷ 66 ∷ 67 ∷ []) none 1

abbrev ids : List Text
ids = block_id uuid 0 ∷ block_id uuid 1 ∷ []

-- The states in turn.
abbrev at :
    Phase → Text → ℕ → List Text → List Chunk → ℕ → List Chunk → List Chunk → List Chunk → Copier
at phase unread num all queue idle held staged issued = record {
  phase = phase;
  unread = unread;
  fault = none;
  ids = record { uuid = uuid; num = num; all = all };
  queue = queue;
  idle = idle;
  held = held;
  staged = staged;
  failure = none;
  cancelled = false;
  issued = issued;
  lost = [];
}

abbrev first : Chunk
first = chunk 0 (65 ∷ 66 ∷ [])

abbrev second : Chunk
second = chunk 1 (67 ∷ [])

abbrev over : Copier
over = at (committed ids) [] 2 ids [] 1 [] (second ∷ first ∷ []) (first ∷ second ∷ [])

uploaded : Reach 2 start over
unfolding new_copier new_id next get_err read_full issue send_chunk close
uploaded =
    next_step
      (next_step
        (next_step
          (next_step
            (next_step
              (next_step
                (next_step (next_step (next_step here (read refl)) (send first false refl refl))
                  (take_chunk first 0 refl refl))
                (stage first [] [] refl))
              (read refl))
            (send second true refl refl))
          (take_chunk second 0 refl refl))
        (stage second [] [] refl))
      (finish none refl refl (inl refl))

committed-IsUpload_example : IsUpload (65 ∷ 66 ∷ 67 ∷ []) ids over
committed-IsUpload_example =
    committed-IsUpload uuid (65 ∷ 66 ∷ 67 ∷ []) 2 1 none ids over (omega arith) uploaded refl refl
      refl

committed_upload-NodupBy_example : NodupBy same_text ids
committed_upload-NodupBy_example =
    committed_upload-NodupBy uuid (65 ∷ 66 ∷ 67 ∷ []) 2 1 none ids over uuid-IsBytes (omega arith)
      uploaded refl (omega arith)

copier_deadlock_example :
    (s : Copier) × Reach 1 (new_copier uuid (65 ∷ 66 ∷ 67 ∷ []) none 1) s × IsStuck 1 s
copier_deadlock_example = copier_deadlock uuid 65 66 67 (errorf (codes "refused")) refl

blob_of-upload_example : blob_of over.staged ids ≡ some (65 ∷ 66 ∷ 67 ∷ [])
blob_of-upload_example =
    blob_of-upload uuid (65 ∷ 66 ∷ 67 ∷ []) 2 1 none ids over uuid-IsBytes (omega arith) uploaded
      refl (omega arith) refl refl
