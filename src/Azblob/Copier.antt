-- ===== src/Azblob/Copier.antt =====
-- `copier`: the goroutine that reads chunks, and the writers that upload them, step by step. A storage
-- may accept or refuse each block, with any error, and writers take turns in any order.
pub mod Invariant
pub mod Input
pub mod Reading
pub mod Done
pub mod Commit
pub mod Blob
pub mod Deadlock
use clickhouse_backup.Base.{
  ℕ, suc, ◌+◌, ◌-◌, ◌<◌, ◌≡◌, ◌⊎◌, Text, codes, Bool, true, false, Option, none, some, List, [],
  ◌∷◌, ◌++◌, ltb, leb, nat_beq, take, drop, length, Error, eof, unexpected_eof, canceled, wrapped,
  is_eof, is_canceled, if◌then◌else◌,
}
use clickhouse_backup.Azblob.Ids.{BlockIds, new_id, next}

-- `copierChunk`
pub record Chunk : Type 0 where
  pub buffer : Text
  pub id : Text

-- Where `copyFromReader` stands. `sending` waits at the channel; `last` says that the reader is at
-- its end. `close` is what follows the loop.
pub data Phase : Type 0 where
  reading : Phase
  sending : Chunk → Bool → Phase
  closing : Phase
  committed : List Text → Phase
  failed : Error → Phase

-- `unread` and `fault` are the reader: what it still has, and the error that it ends with, which is
-- `io.EOF` where there is none. `queue` is the channel `ch`, of capacity 1. `idle` counts the writers that wait for a
-- chunk, `held` has the chunks of those that upload, and `staged` what the storage has accepted.
-- `failure` is the channel `errCh`; `cancelled` says that a writer cancelled the context, which the
-- caller never does. `issued` keeps all chunks in the order of their ids, and `lost` those that a writer
-- gave up without a report; the code has neither.
pub record Copier : Type 0 where
  pub phase : Phase
  pub unread : Text
  pub fault : Option Error
  pub ids : BlockIds
  pub queue : List Chunk
  pub idle : ℕ
  pub held : List Chunk
  pub staged : List Chunk
  pub failure : Option Error
  pub cancelled : Bool
  pub issued : List Chunk
  pub lost : List Chunk

unfoldable pub new_copier : Text → Text → Option Error → ℕ → Copier
new_copier uuid input fault max_buffers = record {
  phase = reading;
  unread = input;
  fault = fault;
  ids = new_id uuid;
  queue = [];
  idle = max_buffers;
  held = [];
  staged = [];
  failure = none;
  cancelled = false;
  issued = [];
  lost = [];
}

-- `getErr`: the channel first, which it empties, then the context.
unfoldable pub get_err : Copier → Option Error × Copier
get_err c = elim c.failure [
  | some e ↦ (some e, record c { failure = none })
  | none ↦ (if c.cancelled then some canceled else none, c)
]

-- What `io.ReadFull` returns beside the bytes.
pub data ReadEnd : Type 0 where
  full : ReadEnd
  at_end : ReadEnd
  broken : Error → ReadEnd

-- `at_end` is `io.EOF` and `io.ErrUnexpectedEOF`, which are compared with themselves here.
abbrev pub end_of : Option Error → ReadEnd
end_of none = at_end
end_of (some eof) = at_end
end_of (some unexpected_eof) = at_end
end_of (some e) = broken e

-- `io.ReadFull` on a buffer of `size` bytes.
unfoldable pub read_full : ℕ → Copier → Text × ReadEnd
read_full size c =
    if leb size (length c.unread) then (take size c.unread, full) else (c.unread, end_of c.fault)

-- A chunk with the next id, on its way to the channel.
unfoldable pub issue : Text → Bool → Copier → Copier
issue bytes last c =
    let (str, ids) = next c.ids in
    let chunk : Chunk = record { buffer = bytes; id = str } in
    record c {
      phase = sending chunk last;
      unread = drop (length bytes) c.unread;
      ids = ids;
      issued = c.issued ++ (chunk ∷ []);
    }

-- The loop of `copyFromReader` ends with an error: one that is or wraps `io.EOF` is taken for the end.
abbrev pub stop_with : Error → Copier → Copier
stop_with e c = record c { phase = if is_eof e then closing else failed e }

abbrev fail : Option Error → Error → Copier → Copier
fail (some first) e c = stop_with first c
fail none e c = stop_with e c

abbrev after_read : Text × ReadEnd → Copier → Copier
after_read ([], full) c = c
after_read (b ∷ bytes, full) c = issue (b ∷ bytes) false c
after_read ([], at_end) c = record c { phase = closing }
after_read (b ∷ bytes, at_end) c = issue (b ∷ bytes) true c
after_read (bytes, broken e) c = let (first, c') = get_err c in fail first e c'

-- `sendChunk`, up to the send.
unfoldable pub send_chunk : ℕ → Copier → Copier
send_chunk size c =
    let (first, c') = get_err c in
    elim first [ some e ↦ stop_with e c' | none ↦ after_read (read_full size c') c' ]

abbrev pub after_send : Bool → Phase
after_send true = closing
after_send false = reading

-- What `write` makes of an error of `StageBlock`.
abbrev pub write_error : Error → Error
write_error e = wrapped (codes "write error: ") e

-- A writer's error: the first one is kept and cancels the context, which is one step here; the writer
-- ends in any case.
unfoldable pub report : Error → Copier → Copier
report e c = elim c.failure [
  | none ↦ record c { failure = some e; cancelled = true }
  | some first ↦ c
]

-- `close`, behind `wg.Wait()`: `result` is the storage's answer to the list of ids.
unfoldable pub close : Option Error → Copier → Copier
close result c =
    let (first, c') = get_err c in
    elim first [
      | some e ↦ record c' { phase = failed e }
      | none ↦ elim result [
        | some e ↦ record c' { phase = failed e }
        | none ↦ record c' { phase = committed c'.ids.all }
      ]
    ]

pub data Step (size : ℕ) (c : Copier) : Copier → Type 0 where
  read : c.phase ≡ reading → Step size c (send_chunk size c)
  send :
      (chunk : Chunk) (last : Bool)
      → c.phase ≡ sending chunk last
      → c.queue ≡ []
      → Step size c (record c { phase = after_send last; queue = chunk ∷ [] })
  take_chunk :
      (chunk : Chunk) (n : ℕ)
      → c.queue ≡ chunk ∷ []
      → c.idle ≡ suc n
      → Step size c (record c { queue = []; idle = n; held = chunk ∷ c.held })
  stage :
      (chunk : Chunk) (before later : List Chunk)
      → c.held ≡ before ++ (chunk ∷ later)
      → Step size c
          (record c { held = before ++ later; idle = suc c.idle; staged = chunk ∷ c.staged })
  -- `write` finds the context cancelled; the writer goes on.
  skip :
      (chunk : Chunk) (before later : List Chunk)
      → c.held ≡ before ++ (chunk ∷ later)
      → c.cancelled ≡ true
      → Step size c (record c { held = before ++ later; idle = suc c.idle })
  refuse :
      (chunk : Chunk) (before later : List Chunk) (e : Error)
      → c.held ≡ before ++ (chunk ∷ later)
      → is_canceled e ≡ false
      → Step size c (report (write_error e) (record c { held = before ++ later }))
  -- `StageBlock` fails with an error that is or wraps `context.Canceled`: it is not reported, and the
  -- writer goes on.
  give_up :
      (chunk : Chunk) (before later : List Chunk) (e : Error)
      → c.held ≡ before ++ (chunk ∷ later)
      → is_canceled e ≡ true
      → Step size c (record c { held = before ++ later; idle = suc c.idle; lost = chunk ∷ c.lost })
  -- All writers are gone: none uploads, and the channel is empty or nobody is left to read it.
  finish :
      (result : Option Error)
      → c.phase ≡ closing
      → c.held ≡ []
      → (c.queue ≡ []) ⊎ (c.idle ≡ 0)
      → Step size c (close result c)

pub data Reach (size : ℕ) (c : Copier) : Copier → Type 0 where
  here : Reach size c c
  next_step : {d e : Copier} → Reach size c d → Step size d e → Reach size c e
