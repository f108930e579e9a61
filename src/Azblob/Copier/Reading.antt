-- ===== src/Azblob/Copier/Reading.antt =====
-- What a read gives, and where the reader stands at the end of an upload.
use clickhouse_backup.Base.{
  ℕ, ◌≤◌, ◌≡◌, refl, ap, ◌∙◌, inl, inr, Text, Bool, true, false, Option, none, some, [], ◌∷◌, ◌++◌,
  leb, take, drop, length, take-append-drop, length-take, append-nil, Error, is_eof, sym, arith,
  Bool-cases,
}
use clickhouse_backup.Azblob.Copier.{
  Phase, reading, sending, closing, committed, failed, Copier, get_err, read_full, ReadEnd, full,
  at_end, broken, issue, after_read, send_chunk, report, close, Step, read, send, take_chunk, stage,
  skip, refuse, give_up, finish, end_of, stop_with, write_error,
}
use clickhouse_backup.Azblob.Copier.Invariant.{
  IsCalm, get_err-calm, send_chunk-calm, close-calm, send_chunk-cancelled, close-cancelled,
}
use mathlib.Core.Path.{subst}
use clickhouse_backup.Azblob.Copier.Input.{
  IsInput, same-IsInput, get_err-same, get_err-IsInput, issue-IsInput,
}

drop_all : (u : Text) → drop (length u) u ≡ []
drop_all [] = refl
drop_all (b ∷ u) = drop_all u

take-drop : (n : ℕ) (u : Text) → n ≤ length u → take n u ++ drop (length (take n u)) u ≡ u
take-drop n u h = ap (λ k. take n u ++ drop k u) short ∙ take-append-drop n u
  where
    short : length (take n u) ≡ n
    short = omega (arith, length-take n u, h)

-- What a read may answer: a prefix of the bytes unread, all of them where it says `at_end`.
record IsFit (bytes : Text) (e : ReadEnd) (c : Copier) : Type 0 where
  prefix : bytes ++ drop (length bytes) c.unread ≡ c.unread
  broken_by : (x : Error) → e ≡ broken x → end_of c.fault ≡ broken x
  rest : e ≡ at_end → (drop (length bytes) c.unread ≡ []) × (end_of c.fault ≡ at_end)

read_full-IsFit : (size : ℕ) (c : Copier) → IsFit ((read_full size c).0) ((read_full size c).1) c
unfolding read_full
read_full-IsFit size c = elim (Bool-cases (leb size (length c.unread))) [
  | inl y ↦ rw y (record {
    prefix = take-drop size c.unread (ground (arith, y));
    broken_by = λ x e. absurd (ground (arith, e));
    rest = λ e. absurd (ground (arith, e));
  })
  | inr n ↦ rw n (record {
    prefix = rw (drop_all c.unread) (append-nil c.unread);
    broken_by = λ x e. e;
    rest = λ e. (drop_all c.unread, e);
  })
]

abbrev pub is_last : Phase → Bool
is_last closing = true
is_last (sending chunk last) = last
is_last (committed ids) = true
is_last _ = false

-- An error that wraps `io.EOF`, but is not it, so what was read last is not sent.
abbrev pub hides_end : ReadEnd → Bool
hides_end (broken e) = is_eof e
hides_end _ = false

-- Behind the last chunk, before the first error, the reader has nothing left, and it is at its end.
unfoldable pub IsEnded : Copier → Type 0
IsEnded c =
    c.cancelled ≡ false
    → hides_end (end_of c.fault) ≡ false
    → is_last c.phase ≡ true
    → (c.unread ≡ []) × (end_of c.fault ≡ at_end)

pub record IsRead (uuid input : Text) (c : Copier) : Type 0 where
  pub kept : IsInput uuid input c
  pub ended : IsEnded c

after_read-IsInput :
    (uuid input bytes : Text) (r : ReadEnd) (c : Copier)
    → IsFit bytes r c
    → IsInput uuid input c
    → IsInput uuid input (after_read (bytes, r) c)
unfolding issue
after_read-IsInput uuid input [] full c f i = i
after_read-IsInput uuid input (b ∷ bytes) full c f i =
    issue-IsInput uuid input (b ∷ bytes) false c f.prefix i
after_read-IsInput uuid input [] at_end c f i =
    same-IsInput uuid input c (record c { phase = closing }) refl refl refl i
after_read-IsInput uuid input (b ∷ bytes) at_end c f i =
    issue-IsInput uuid input (b ∷ bytes) true c f.prefix i
after_read-IsInput uuid input bytes (broken e) c f i =
    same-IsInput uuid input c (after_read (bytes, broken e) c) (ground (arith, get_err-same c))
      (ground (arith, get_err-same c)) (ground (arith, get_err-same c)) i

after_read-IsEnded :
    (max : ℕ) (bytes : Text) (r : ReadEnd) (c : Copier)
    → c.phase ≡ reading
    → IsFit bytes r c
    → IsCalm max c
    → c.cancelled ≡ false
    → IsEnded (after_read (bytes, r) c)
unfolding issue IsEnded
after_read-IsEnded max [] full c p f m a = λ alive shown e. ground (arith, p, e)
after_read-IsEnded max (b ∷ bytes) full c p f m a = λ alive shown e. ground (arith, e)
after_read-IsEnded max [] at_end c p f m a = λ alive shown e. f.rest refl
after_read-IsEnded max (b ∷ bytes) at_end c p f m a = λ alive shown e. f.rest refl
after_read-IsEnded max bytes (broken x) c p f m a = rw (get_err-calm max c m a) (λ alive shown e.
    let plain : is_eof x ≡ false = ap hides_end (sym (f.broken_by x refl)) ∙ shown in
    absurd (ground (arith, plain, e)))

first_or-IsInput :
    (uuid input : Text) (first : Option Error) (c d : Copier)
    → IsInput uuid input c
    → IsInput uuid input d
    → IsInput uuid input (elim first [ some e ↦ stop_with e c | none ↦ d ])
first_or-IsInput uuid input none c d i j = j
first_or-IsInput uuid input (some e) c d i j = same-IsInput uuid input c _ refl refl refl i

send_chunk-IsInput :
    (uuid input : Text) (size : ℕ) (c : Copier)
    → IsInput uuid input c
    → IsInput uuid input (send_chunk size c)
unfolding send_chunk
send_chunk-IsInput uuid input size c i =
    let (first, c') = get_err c in
    let kept = get_err-IsInput uuid input c i in
    first_or-IsInput uuid input first c' (after_read (read_full size c') c') kept (
      after_read-IsInput uuid input ((read_full size c').0) ((read_full size c').1) c'
        (read_full-IsFit size c') kept)

send_chunk-IsEnded :
    (max size : ℕ) (c : Copier)
    → c.phase ≡ reading
    → (c.cancelled ≡ false → IsCalm max c)
    → IsEnded (send_chunk size c)
unfolding IsEnded
send_chunk-IsEnded max size c p calm alive =
    let a : c.cancelled ≡ false = sym (send_chunk-cancelled size c) ∙ alive in
    let ended : IsEnded (after_read (read_full size c) c) =
      after_read-IsEnded max ((read_full size c).0) ((read_full size c).1) c p
        (read_full-IsFit size c) (calm a) a in
    subst IsEnded (sym (send_chunk-calm max size c (calm a) a)) ended alive

close-IsInput :
    (uuid input : Text) (result : Option Error) (c : Copier)
    → IsInput uuid input c
    → IsInput uuid input (close result c)
unfolding close
close-IsInput uuid input result c i =
    same-IsInput uuid input c (close result c) (ground (arith, get_err-same c))
      (ground (arith, get_err-same c)) (ground (arith, get_err-same c)) i

close-IsEnded :
    (max : ℕ) (result : Option Error) (c : Copier)
    → c.phase ≡ closing
    → (c.cancelled ≡ false → IsCalm max c)
    → IsEnded c
    → IsEnded (close result c)
unfolding IsEnded
close-IsEnded max result c p calm ended alive =
    let a : c.cancelled ≡ false = sym (close-cancelled result c) ∙ alive in
    subst IsEnded (sym (close-calm max result c (calm a) a)) (closed result) alive
  where
    closed :
        (answer : Option Error)
        → IsEnded (elim answer [
          | some e ↦ record c { phase = failed e }
          | none ↦ record c { phase = committed c.ids.all }
        ])
    closed none = λ b shown e. ended b shown (rw p refl)
    closed (some x) = λ b shown e. absurd (ground (arith, e))

report-IsRead :
    (uuid input : Text) (e : Error) (c : Copier)
    → IsRead uuid input c
    → IsRead uuid input (report e c)
unfolding report IsEnded
report-IsRead uuid input e c i = record {
  kept = same-IsInput uuid input c _ (ground arith) (ground arith) (ground arith) i.kept;
  ended = λ alive shown x. ground (arith, i.ended, alive, shown, x);
}

-- The other steps leave the reader and its end as they are.
pub Step-IsRead :
    (uuid input : Text) (max size : ℕ) (c d : Copier)
    → Step size c d
    → (c.cancelled ≡ false → IsCalm max c)
    → IsRead uuid input c
    → IsRead uuid input d
unfolding IsEnded
Step-IsRead uuid input max size c _ (read p) m i = record {
  kept = send_chunk-IsInput uuid input size c i.kept;
  ended = send_chunk-IsEnded max size c p m;
}
Step-IsRead uuid input max size c _ (send chunk true p q) m i = record {
  kept = same-IsInput uuid input c _ refl refl refl i.kept;
  ended = λ a shown e. i.ended a shown (rw p refl);
}
Step-IsRead uuid input max size c _ (send chunk false p q) m i = record {
  kept = same-IsInput uuid input c _ refl refl refl i.kept;
  ended = λ a shown e. absurd (ground (arith, e));
}
Step-IsRead uuid input max size c _ (take_chunk chunk n q w) m i = record {
  kept = same-IsInput uuid input c _ refl refl refl i.kept;
  ended = i.ended;
}
Step-IsRead uuid input max size c _ (stage chunk before later h) m i = record {
  kept = same-IsInput uuid input c _ refl refl refl i.kept;
  ended = i.ended;
}
Step-IsRead uuid input max size c _ (skip chunk before later h x) m i = record {
  kept = same-IsInput uuid input c _ refl refl refl i.kept;
  ended = i.ended;
}
Step-IsRead uuid input max size c _ (refuse chunk before later e h x) m i =
    report-IsRead uuid input (write_error e) (record c { held = before ++ later })
      (record { kept = same-IsInput uuid input c _ refl refl refl i.kept; ended = i.ended })
Step-IsRead uuid input max size c _ (give_up chunk before later e h x) m i = record {
  kept = same-IsInput uuid input c _ refl refl refl i.kept;
  ended = i.ended;
}
Step-IsRead uuid input max size c _ (finish result p h q) m i = record {
  kept = close-IsInput uuid input result c i.kept;
  ended = close-IsEnded max result c p m i.ended;
}
