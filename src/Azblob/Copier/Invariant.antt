-- ===== src/Azblob/Copier/Invariant.antt =====
-- The chunks between the reader and the storage, and the writers, before the first error.
use clickhouse_backup.Base.{
  ℕ, suc, ◌+◌, ◌≡◌, refl, sym, ap, ◌∙◌, Text, Bool, true, false, Option, none, some, List, [], ◌∷◌,
  ◌++◌, length, length-append, append_assoc, Error, is_eof, Bool-cases, inl, inr, if◌then◌else◌,
  arith,
}
use clickhouse_backup.Azblob.Ids.{next}
use clickhouse_backup.Azblob.Copier.{
  Chunk, Phase, reading, sending, closing, committed, failed, Copier, get_err, read_full, ReadEnd,
  full, at_end, broken, issue, after_read, send_chunk, report, close, stop_with, Step, read, send,
  take_chunk, stage, skip, refuse, give_up, finish,
}

abbrev pub count_if : (Chunk → Bool) → List Chunk → ℕ
count_if q [] = 0
count_if q (c ∷ l) = (if q c then 1 else 0) + count_if q l

pub count_if-append :
    (q : Chunk → Bool) (l r : List Chunk) → count_if q (l ++ r) ≡ count_if q l + count_if q r
count_if-append q [] r = omega arith
count_if-append q (c ∷ l) r = omega (arith, count_if-append q l r)

abbrev pub in_hand : Phase → List Chunk
in_hand (sending chunk last) = chunk ∷ []
in_hand _ = []

abbrev pub buffers : List Chunk → Text
buffers [] = []
buffers (c ∷ l) = c.buffer ++ buffers l

pub buffers-append : (l r : List Chunk) → buffers (l ++ r) ≡ buffers l ++ buffers r
buffers-append [] r = refl
buffers-append (c ∷ l) r =
    rw (buffers-append l r) (sym (append_assoc c.buffer (buffers l) (buffers r)))

-- The chunks between the reader and the storage, those in the storage, and those given up.
abbrev pub at_work : (Chunk → Bool) → Copier → ℕ
at_work q c =
    count_if q (in_hand c.phase)
    + count_if q c.queue
    + count_if q c.held
    + count_if q c.staged
    + count_if q c.lost

-- Before the first error.
pub record IsCalm (max : ℕ) (c : Copier) : Type 0 where
  pub quiet : c.failure ≡ none
  pub alive : c.idle + length c.held ≡ max
  pub balanced : (q : Chunk → Bool) → at_work q c ≡ count_if q c.issued

abbrev CountMiddle : (q : Chunk → Bool) (before later : List Chunk) (c : Chunk) → Type 0
CountMiddle q before later c =
    count_if q (before ++ (c ∷ later)) ≡ (if q c then 1 else 0) + count_if q (before ++ later)

count_if-middle :
    (q : Chunk → Bool) (before later : List Chunk) (c : Chunk) → CountMiddle q before later c
count_if-middle q before later c =
    omega (arith, count_if-append q before (c ∷ later), count_if-append q before later)

length-middle :
    (before later : List Chunk) (c : Chunk)
    → length (before ++ (c ∷ later)) ≡ suc (length (before ++ later))
length-middle before later c =
    omega (arith, length-append before (c ∷ later), length-append before later)

issue-IsCalm :
    (max : ℕ) (bytes : Text) (last : Bool) (c : Copier)
    → c.phase ≡ reading
    → IsCalm max c
    → IsCalm max (issue bytes last c)
unfolding issue next
issue-IsCalm max bytes last c p i =
    let chunk : Chunk = record { buffer = bytes; id = (next c.ids).0 } in
    record {
      quiet = i.quiet;
      alive = i.alive;
      balanced = λ q. ground (arith, i.balanced q, count_if-append q c.issued (chunk ∷ []));
    }

move-IsCalm :
    (max : ℕ) (p : Phase) (c : Copier)
    → in_hand p ≡ in_hand c.phase
    → IsCalm max c
    → IsCalm max (record c { phase = p })
move-IsCalm max p c e i = record {
  quiet = i.quiet;
  alive = i.alive;
  balanced = λ q. ground (arith, i.balanced q, e);
}

pub get_err-calm :
    (max : ℕ) (c : Copier) → IsCalm max c → c.cancelled ≡ false → get_err c ≡ (none, c)
unfolding get_err
get_err-calm max c i alive = ground (arith, i.quiet)

stop_with-IsCalm :
    (max : ℕ) (e : Error) (c : Copier)
    → c.phase ≡ reading
    → IsCalm max c
    → IsCalm max (stop_with e c)
stop_with-IsCalm max e c p i = elim (Bool-cases (is_eof e)) [
  | inl ends ↦ rw ends (move-IsCalm max closing c (rw p refl) i)
  | inr other ↦ rw other (move-IsCalm max (failed e) c (rw p refl) i)
]

after_read-IsCalm :
    (max : ℕ) (r : Text × ReadEnd) (c : Copier)
    → c.phase ≡ reading
    → IsCalm max c
    → c.cancelled ≡ false
    → IsCalm max (after_read r c)
after_read-IsCalm max ([], full) c p i alive = i
after_read-IsCalm max (b ∷ bytes, full) c p i alive = issue-IsCalm max (b ∷ bytes) false c p i
after_read-IsCalm max ([], at_end) c p i alive = move-IsCalm max closing c (rw p refl) i
after_read-IsCalm max (b ∷ bytes, at_end) c p i alive = issue-IsCalm max (b ∷ bytes) true c p i
after_read-IsCalm max (bytes, broken e) c p i alive =
    rw (get_err-calm max c i alive) (stop_with-IsCalm max e c p i)

pub send_chunk-calm :
    (max size : ℕ) (c : Copier)
    → IsCalm max c
    → c.cancelled ≡ false
    → send_chunk size c ≡ after_read (read_full size c) c
unfolding send_chunk
send_chunk-calm max size c i alive =
    ap
      (λ r.
        let (first, c') = r in
        elim first [ some e ↦ stop_with e c' | none ↦ after_read (read_full size c') c' ])
      (get_err-calm max c i alive)

pub close-calm :
    (max : ℕ) (result : Option Error) (c : Copier)
    → IsCalm max c
    → c.cancelled ≡ false
    → close result c ≡ (elim result [
      | some e ↦ record c { phase = failed e }
      | none ↦ record c { phase = committed c.ids.all }
    ])
unfolding close
close-calm max result c i alive =
    ap
      (λ r.
        let (first, c') = r in
        elim first [
          | some e ↦ record c' { phase = failed e }
          | none ↦ elim result [
            | some e ↦ record c' { phase = failed e }
            | none ↦ record c' { phase = committed c'.ids.all }
          ]
        ])
      (get_err-calm max c i alive)

close-IsCalm :
    (max : ℕ) (result : Option Error) (c : Copier)
    → c.phase ≡ closing
    → IsCalm max c
    → c.cancelled ≡ false
    → IsCalm max (close result c)
close-IsCalm max (some e) c p i alive =
    rw (close-calm max (some e) c i alive) (move-IsCalm max (failed e) c (rw p refl) i)
close-IsCalm max none c p i alive =
    rw (close-calm max none c i alive) (move-IsCalm max (committed c.ids.all) c (rw p refl) i)

pub get_err-cancelled : (c : Copier) → (get_err c).1.cancelled ≡ c.cancelled
unfolding get_err
get_err-cancelled c = ground (arith)

pub after_read-cancelled :
    (r : Text × ReadEnd) (c : Copier) → (after_read r c).cancelled ≡ c.cancelled
unfolding issue
after_read-cancelled ([], full) c = refl
after_read-cancelled (b ∷ bytes, full) c = refl
after_read-cancelled ([], at_end) c = refl
after_read-cancelled (b ∷ bytes, at_end) c = refl
after_read-cancelled (bytes, broken e) c = ground (arith, get_err-cancelled c)

pub send_chunk-cancelled : (size : ℕ) (c : Copier) → (send_chunk size c).cancelled ≡ c.cancelled
unfolding send_chunk
send_chunk-cancelled size c =
    let (first, c') = get_err c in
    ground (arith, get_err-cancelled c, after_read-cancelled (read_full size c') c')

pub close-cancelled :
    (result : Option Error) (c : Copier) → (close result c).cancelled ≡ c.cancelled
unfolding close
close-cancelled result c = ground (arith, get_err-cancelled c)

-- The context stays cancelled.
pub Step-alive :
    (size : ℕ) (c d : Copier) → Step size c d → d.cancelled ≡ false → c.cancelled ≡ false
unfolding report
Step-alive size c _ (read p) a = sym (send_chunk-cancelled size c) ∙ a
Step-alive size c _ (send chunk last p q) a = a
Step-alive size c _ (take_chunk chunk n q w) a = a
Step-alive size c _ (stage chunk before later h) a = a
Step-alive size c _ (skip chunk before later h x) a = a
Step-alive size c _ (refuse chunk before later e h x) a = ground (arith)
Step-alive size c _ (give_up chunk before later e h x) a = a
Step-alive size c _ (finish result p h q) a = sym (close-cancelled result c) ∙ a

pub Step-IsCalm :
    (max size : ℕ) (c d : Copier)
    → Step size c d
    → IsCalm max c
    → d.cancelled ≡ false
    → c.cancelled ≡ false
    → IsCalm max d
unfolding report
Step-IsCalm max size c _ (read p) i a b =
    rw (send_chunk-calm max size c i b) (after_read-IsCalm max (read_full size c) c p i b)
Step-IsCalm max size c _ (send chunk true p q) i a b = record {
  quiet = i.quiet;
  alive = i.alive;
  balanced = λ f. ground (arith, i.balanced f, p, q);
}
Step-IsCalm max size c _ (send chunk false p q) i a b = record {
  quiet = i.quiet;
  alive = i.alive;
  balanced = λ f. ground (arith, i.balanced f, p, q);
}
Step-IsCalm max size c _ (take_chunk chunk n q w) i a b = record {
  quiet = i.quiet;
  alive = ground (arith, i.alive, w);
  balanced = λ f. ground (arith, i.balanced f, q);
}
Step-IsCalm max size c _ (stage chunk before later h) i a b = record {
  quiet = i.quiet;
  alive = ground (arith, i.alive, length-middle before later chunk, h);
  balanced = λ f. ground (arith, i.balanced f, count_if-middle f before later chunk, h);
}
Step-IsCalm max size c _ (skip chunk before later h x) i a b = absurd (ground (arith, x, b))
Step-IsCalm max size c _ (refuse chunk before later e h x) i a b =
    absurd (ground (arith, i.quiet, a))
Step-IsCalm max size c _ (give_up chunk before later e h x) i a b = record {
  quiet = i.quiet;
  alive = ground (arith, i.alive, length-middle before later chunk, h);
  balanced = λ f. ground (arith, i.balanced f, count_if-middle f before later chunk, h);
}
Step-IsCalm max size c _ (finish result p h q) i a b = close-IsCalm max result c p i b
