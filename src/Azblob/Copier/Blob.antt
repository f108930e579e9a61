-- ===== src/Azblob/Copier/Blob.antt =====
-- What the ids that an upload commits stand for: the blocks staged under them, one after the other.
use clickhouse_backup.Base.{
  ℕ, ◌<◌, ◌≤◌, ◌^◌, ◌≡◌, refl, sym, ap, ◌∙◌, Text, ◌==◌, ==_refl, ==_iff, ==_comm, All-map, Bool,
  false, not, ◌&&◌, Option, none, some, List, [], ◌∷◌, ◌++◌, map, any, All, length, NodupBy, Error,
  if◌then◌else◌, arith,
}
use mathlib.Core.Path.{subst}
use clickhouse_backup.Azblob.Base64.{IsBytes}
use clickhouse_backup.Azblob.Ids.{same_text}
use clickhouse_backup.Azblob.Copier.{Chunk, Copier, committed, end_of, new_copier, Reach}
use clickhouse_backup.Azblob.Copier.Invariant.{buffers, count_if}
use clickhouse_backup.Azblob.Copier.Reading.{hides_end}
use clickhouse_backup.Azblob.Copier.Commit.{committed-IsUpload, committed_upload-NodupBy}

abbrev pub find_block : List Chunk → Text → Option Text
find_block [] id = none
find_block (c ∷ staged) id = if c.id == id then some c.buffer else find_block staged id

abbrev append_to : Option Text → Option Text → Option Text
append_to (some a) (some b) = some (a ++ b)
append_to _ _ = none

-- The blocks staged under the ids, put together.
abbrev pub blob_of : List Chunk → List Text → Option Text
blob_of staged [] = some []
blob_of staged (id ∷ ids) = append_to (find_block staged id) (blob_of staged ids)

abbrev is_block : Chunk → Chunk → Bool
is_block x c = c.id == x.id && c.buffer == x.buffer

abbrev is_other : Chunk → Chunk → Bool
is_other x c = c.id == x.id && not (c.buffer == x.buffer)

find_block_of_counts :
    (x : Chunk) (l : List Chunk)
    → 0 < count_if (is_block x) l
    → count_if (is_other x) l ≡ 0
    → find_block l x.id ≡ some x.buffer
find_block_of_counts x [] m n = absurd (omega arith)
find_block_of_counts x (c ∷ l) m n =
    ground (arith, m, n, ==_iff c.buffer x.buffer, find_block_of_counts x l)

-- A block whose id stands once.
record IsOnly (l : List Chunk) (x : Chunk) : Type 0 where
  there : 0 < count_if (is_block x) l
  alone : count_if (is_other x) l ≡ 0

absent-counts :
    (x : Chunk) (l : List Chunk)
    → any (map (λ y. y.id) l) (λ y. same_text x.id y) ≡ false
    → (count_if (is_block x) l ≡ 0) × (count_if (is_other x) l ≡ 0)
absent-counts x [] h = (refl, refl)
absent-counts x (c ∷ l) h = ground (arith, h, ==_comm c.id x.id, absent-counts x l)

IsOnly-behind :
    (c : Chunk) (l m : List Chunk)
    → any (map (λ y. y.id) m) (λ y. same_text c.id y) ≡ false
    → All (IsOnly l) m
    → All (IsOnly (c ∷ l)) m
IsOnly-behind c l [] h o = tt
IsOnly-behind c l (x ∷ m) h o =
    let here : IsOnly l x = o.0 in
    (
      record { there = ground (arith, h, here.there); alone = ground (arith, h, here.alone) },
      IsOnly-behind c l m (ground (arith, h)) o.1,
    )

IsOnly-self : (l : List Chunk) → NodupBy same_text (map (λ y. y.id) l) → All (IsOnly l) l
IsOnly-self [] u = tt
IsOnly-self (c ∷ l) u =
    let none_behind = absent-counts c l u.0 in
    (
      record {
        there = ground (arith, ==_refl c.id, ==_refl c.buffer);
        alone = ground (arith, ==_refl c.buffer, none_behind);
      },
      IsOnly-behind c l l u.0 (IsOnly-self l u.1),
    )

blob_of-found :
    (staged l : List Chunk)
    → All (λ x. find_block staged x.id ≡ some x.buffer) l
    → blob_of staged (map (λ y. y.id) l) ≡ some (buffers l)
blob_of-found staged [] h = refl
blob_of-found staged (x ∷ l) h =
    ap (λ b. append_to b (blob_of staged (map (λ y. y.id) l))) h.0
    ∙ ap (append_to (some x.buffer)) (blob_of-found staged l h.1)

-- If an upload with at least one writer and a UUID of bytes commits at most 2 ^ 32 ids, no writer
-- gave a chunk up at an error that is or wraps `context.Canceled`, and the reader's own error
-- does not wrap `io.EOF`: the blocks that were staged under these ids, put together in their
-- order, are the input, whatever turns the writers took.
pub blob_of-upload :
    (uuid input : Text) (size max : ℕ) (fault : Option Error) (ids : List Text) (c : Copier)
    → IsBytes uuid
    → 0 < max
    → Reach size (new_copier uuid input fault max) c
    → c.phase ≡ committed ids
    → length ids ≤ 2 ^ 32
    → c.lost ≡ []
    → hides_end (end_of c.fault) ≡ false
    → blob_of c.staged ids ≡ some input
blob_of-upload uuid input size max fault ids c u m r p few none_lost shown =
    let done = committed-IsUpload uuid input size max fault ids c m r p none_lost shown in
    let distinct = committed_upload-NodupBy uuid input size max fault ids c u m r p few in
    let only : All (IsOnly c.issued) c.issued =
      IsOnly-self c.issued (subst (NodupBy same_text) (sym done.named) distinct) in
    let found : All (λ x. find_block c.staged x.id ≡ some x.buffer) c.issued =
      All-map (IsOnly c.issued) (λ x. find_block c.staged x.id ≡ some x.buffer) c.issued
        (λ x o.
          find_block_of_counts x c.staged (omega (arith, done.staged_all (is_block x), o.there))
            (done.staged_all (is_other x) ∙ o.alone))
        only in
    ap (blob_of c.staged) (sym done.named)
    ∙ (blob_of-found c.staged c.issued found ∙ ap some done.whole)
