-- ===== src/Azblob/Copier/Input.antt =====
-- The chunks issued and the bytes unread, at any time of an upload.
use clickhouse_backup.Base.{
  suc, ◌%◌, ◌^◌, ◌≤◌, ◌≡◌, ap, ◌∙◌, Text, Bool, [], ◌∷◌, ◌++◌, map, drop, length, length-append,
  append-nil, append_assoc, arith,
}
use mathlib.Core.List.{map-append}
use clickhouse_backup.Azblob.Ids.{next, ids_below, block_id}
use clickhouse_backup.Azblob.Copier.{Chunk, Copier, get_err, issue}
use clickhouse_backup.Azblob.Copier.Invariant.{buffers, buffers-append}

pub record IsInput (uuid input : Text) (c : Copier) : Type 0 where
  pub parts : buffers c.issued ++ c.unread ≡ input
  pub named : map (λ x. x.id) c.issued ≡ c.ids.all
  pub author : c.ids.uuid ≡ uuid
  pub numbered : c.ids.num ≡ length c.issued % 2 ^ 32
  pub listed : length c.issued ≤ 2 ^ 32 → c.ids.all ≡ ids_below uuid (length c.issued)

pub same-IsInput :
    (uuid input : Text) (c d : Copier)
    → d.issued ≡ c.issued
    → d.unread ≡ c.unread
    → d.ids ≡ c.ids
    → IsInput uuid input c
    → IsInput uuid input d
same-IsInput uuid input c d e u n i = record {
  parts = rw e (rw u i.parts);
  named = rw e (rw n i.named);
  author = rw n i.author;
  numbered = rw e (rw n i.numbered);
  listed = rw e (rw n i.listed);
}

pub get_err-same :
    (c : Copier)
    → ((get_err c).1.issued ≡ c.issued)
      × ((get_err c).1.unread ≡ c.unread)
      × ((get_err c).1.ids ≡ c.ids)
      × ((get_err c).1.phase ≡ c.phase)
      × ((get_err c).1.fault ≡ c.fault)
      × ((get_err c).1.queue ≡ c.queue)
      × ((get_err c).1.held ≡ c.held)
unfolding get_err
get_err-same c = ground arith

pub get_err-IsInput :
    (uuid input : Text) (c : Copier) → IsInput uuid input c → IsInput uuid input ((get_err c).1)
get_err-IsInput uuid input c i =
    same-IsInput uuid input c ((get_err c).1) (ground (arith, get_err-same c))
      (ground (arith, get_err-same c)) (ground (arith, get_err-same c)) i

pub issue-IsInput :
    (uuid input bytes : Text) (last : Bool) (c : Copier)
    → bytes ++ drop (length bytes) c.unread ≡ c.unread
    → IsInput uuid input c
    → IsInput uuid input (issue bytes last c)
unfolding issue next ids_below
issue-IsInput uuid input bytes last c e i =
    let chunk : Chunk = record { buffer = bytes; id = (next c.ids).0 } in
    let grown : length (c.issued ++ (chunk ∷ [])) ≡ suc (length c.issued) =
      omega (arith, length-append c.issued (chunk ∷ [])) in
    record {
      parts = rw (buffers-append c.issued (chunk ∷ [])) (
          rw (append-nil bytes) (
            append_assoc (buffers c.issued) bytes (drop (length bytes) c.unread)
            ∙ ap (λ u. buffers c.issued ++ u) e
            ∙ i.parts));
      named = map-append (λ x. x.id) c.issued (chunk ∷ []) ∙ ap (λ l. l ++ (chunk.id ∷ [])) i.named;
      author = i.author;
      numbered = ground (arith, grown, i.numbered);
      listed = λ h.
          let same : c.ids.num ≡ length c.issued = omega (arith, i.numbered, grown, h) in
          rw grown (listed_next (i.listed (omega (arith, grown, h))) i.author same);
    }
  where
    listed_next :
        c.ids.all ≡ ids_below uuid (length c.issued)
        → c.ids.uuid ≡ uuid
        → c.ids.num ≡ length c.issued
        → c.ids.all ++ (block_id c.ids.uuid c.ids.num ∷ [])
          ≡ ids_below uuid (length c.issued) ++ (block_id uuid (length c.issued) ∷ [])
    listed_next l a n = cc
