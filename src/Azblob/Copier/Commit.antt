-- ===== src/Azblob/Copier/Commit.antt =====
-- What an upload that reports success has done.
use clickhouse_backup.Base.{
  ℕ, suc, ◌^◌, ◌≤◌, ◌<◌, ◌≡◌, refl, sym, ap, ◌∙◌, Text, Bool, false, Option, List, [], ◌∷◌, ◌++◌,
  map, length, append-nil, Error, arith, NodupBy,
}
use mathlib.Core.Path.{subst}
use clickhouse_backup.Azblob.Base64.{IsBytes}
use clickhouse_backup.Azblob.Ids.{new_id, ids_below, same_text, ids_below-NodupBy}
use clickhouse_backup.Azblob.Copier.{
  Chunk, committed, end_of, at_end, Copier, new_copier, Step, Reach, here, next_step,
}
use clickhouse_backup.Azblob.Copier.Invariant.{buffers, count_if, IsCalm, Step-alive, Step-IsCalm}
use clickhouse_backup.Azblob.Copier.Reading.{IsRead, IsEnded, hides_end, Step-IsRead}
use clickhouse_backup.Azblob.Copier.Done.{IsOver, IsDone, Step-IsDone}

record Inv (uuid input : Text) (max : ℕ) (c : Copier) : Type 0 where
  calm : c.cancelled ≡ false → IsCalm max c
  source : IsRead uuid input c
  done : IsDone c.phase c

Step-Inv :
    (uuid input : Text) (size max : ℕ) (c d : Copier)
    → 0 < max
    → Step size c d
    → Inv uuid input max c
    → Inv uuid input max d
Step-Inv uuid input size max c d m s i = record {
  calm = λ a. let b = Step-alive size c d s a in Step-IsCalm max size c d s (i.calm b) a b;
  source = Step-IsRead uuid input max size c d s i.calm i.source;
  done = Step-IsDone size max c d m s i.calm i.done;
}

new_copier-Inv :
    (uuid input : Text) (fault : Option Error) (max : ℕ)
    → Inv uuid input max (new_copier uuid input fault max)
unfolding new_copier new_id IsEnded ids_below
new_copier-Inv uuid input fault max = record {
  calm = λ a. record { quiet = refl; alive = omega arith; balanced = λ q. refl };
  source = record {
    kept = record {
      parts = refl;
      named = refl;
      author = refl;
      numbered = refl;
      listed = λ h. refl;
    };
    ended = λ a shown e. absurd (ground (arith, e));
  };
  done = tt;
}

Reach-Inv :
    (uuid input : Text) (size max : ℕ) (fault : Option Error) (c : Copier)
    → 0 < max
    → Reach size (new_copier uuid input fault max) c
    → Inv uuid input max c
Reach-Inv uuid input size max fault _ m here = new_copier-Inv uuid input fault max
Reach-Inv uuid input size max fault _ m (next_step r s) =
    Step-Inv uuid input size max _ _ m s (Reach-Inv uuid input size max fault _ m r)

-- What the storage has when it is told to put the blocks `ids` together: each chunk as often as it was
-- issued.
pub record IsUpload (input : Text) (ids : List Text) (c : Copier) : Type 0 where
  pub whole : buffers c.issued ≡ input
  pub named : map (λ x. x.id) c.issued ≡ ids
  pub staged_all : (q : Chunk → Bool) → count_if q c.staged ≡ count_if q c.issued
  pub at_its_end : end_of c.fault ≡ at_end

-- The ids of an upload that commits are those of the chunks issued, in order.
committed-named :
    (uuid input : Text) (size max : ℕ) (fault : Option Error) (ids : List Text) (c : Copier)
    → 0 < max
    → Reach size (new_copier uuid input fault max) c
    → c.phase ≡ committed ids
    → map (λ x. x.id) c.issued ≡ ids
committed-named uuid input size max fault ids c m r p =
    let i = Reach-Inv uuid input size max fault c m r in
    let over : IsOver ids c = subst (λ x. IsDone x c) p i.done in i.source.kept.named ∙ over.listed

-- If an upload with at least one writer commits a list of ids, no writer gave a chunk up at an
-- error that is or wraps `context.Canceled`, and the reader's own error does not wrap `io.EOF`:
-- the reader ended with `io.EOF` or `io.ErrUnexpectedEOF`, the chunks issued are the input cut in
-- pieces, the ids are theirs in order, and the storage has staged each chunk as often as it was
-- issued, whatever turns the writers took.
pub committed-IsUpload :
    (uuid input : Text) (size max : ℕ) (fault : Option Error) (ids : List Text) (c : Copier)
    → 0 < max
    → Reach size (new_copier uuid input fault max) c
    → c.phase ≡ committed ids
    → c.lost ≡ []
    → hides_end (end_of c.fault) ≡ false
    → IsUpload input ids c
unfolding IsEnded
committed-IsUpload uuid input size max fault ids c m r p none_lost shown =
    let i = Reach-Inv uuid input size max fault c m r in
    let over : IsOver ids c = subst (λ x. IsDone x c) p i.done in
    let calm = i.calm over.uncancelled in
    let (rest, sound) = i.source.ended over.uncancelled shown (rw p refl) in
    record {
      whole =
          sym (append-nil (buffers c.issued))
          ∙ (ap (λ t. buffers c.issued ++ t) (sym rest) ∙ i.source.kept.parts);
      named = committed-named uuid input size max fault ids c m r p;
      staged_all = λ q. ground (arith, calm.balanced q, p, over.drained, over.idle_all, none_lost);
      at_its_end = sound;
    }

-- If an upload with at least one writer commits at most 2 ^ 32 ids, no id stands twice among
-- them, provided that the UUID is a list of bytes.
pub committed_upload-NodupBy :
    (uuid input : Text) (size max : ℕ) (fault : Option Error) (ids : List Text) (c : Copier)
    → IsBytes uuid
    → 0 < max
    → Reach size (new_copier uuid input fault max) c
    → c.phase ≡ committed ids
    → length ids ≤ 2 ^ 32
    → NodupBy same_text ids
committed_upload-NodupBy uuid input size max fault ids c u m r p h =
    let named = committed-named uuid input size max fault ids c m r p in
    let kept = (Reach-Inv uuid input size max fault c m r).source.kept in
    let counted : length ids ≡ length c.issued = ap length (sym named) ∙ length_ids c.issued in
    let few : length c.issued ≤ 2 ^ 32 = omega (arith, counted, h) in
    subst (NodupBy same_text) (sym (kept.listed few) ∙ (sym kept.named ∙ named))
      (ids_below-NodupBy uuid (length c.issued) u few)
  where
    length_ids : (l : List Chunk) → length (map (λ x. x.id) l) ≡ length l
    length_ids [] = refl
    length_ids (x ∷ l) = ap suc (length_ids l)
