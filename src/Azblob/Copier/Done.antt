-- ===== src/Azblob/Copier/Done.antt =====
-- An upload that is over: what its steps leave under way.
use clickhouse_backup.Base.{
  ℕ, ◌<◌, ◌≡◌, ◌≢◌, refl, sym, ◌∙◌, ◌⊎◌, Text, true, false, Option, none, some, List, [], ◌∷◌, ◌++◌,
  Error, is_eof, Bool-cases, inl, inr, arith,
}
use clickhouse_backup.Azblob.Copier.{
  Chunk, Phase, reading, sending, closing, committed, failed, Copier, get_err, issue, after_read,
  read_full, ReadEnd, full, at_end, broken, fail, send_chunk, report, close, Step, read, send,
  take_chunk, stage, skip, refuse, give_up, finish, stop_with, write_error,
}
use clickhouse_backup.Azblob.Copier.Invariant.{IsCalm, get_err-cancelled}
use clickhouse_backup.Azblob.Copier.Input.{get_err-same}

-- An upload that is over and went well: nothing is under way, and these ids were committed.
pub record IsOver (ids : List Text) (c : Copier) : Type 0 where
  pub drained : c.queue ≡ []
  pub idle_all : c.held ≡ []
  pub uncancelled : c.cancelled ≡ false
  pub listed : c.ids.all ≡ ids

abbrev pub IsDone : Phase → Copier → Type 0
IsDone (committed ids) c = IsOver ids c
IsDone _ c = Unit

no_middle : (c : Chunk) (before later : List Chunk) → [] ≢ before ++ (c ∷ later)
no_middle c [] later e = absurd (ground (arith, e))
no_middle c (b ∷ before) later e = absurd (ground (arith, e))

keep-IsDone :
    (p : Phase) (c d : Copier)
    → ((ids : List Text) → IsOver ids c → IsOver ids d)
    → IsDone p c
    → IsDone p d
keep-IsDone (committed ids) c d f o = f ids o
keep-IsDone reading c d f o = tt
keep-IsDone (sending chunk last) c d f o = tt
keep-IsDone closing c d f o = tt
keep-IsDone (failed e) c d f o = tt

stop_with-IsDone : (e : Error) (c : Copier) → IsDone ((stop_with e c).phase) (stop_with e c)
stop_with-IsDone e c = elim (Bool-cases (is_eof e)) [
  | inl ends ↦ rw ends tt
  | inr other ↦ rw other tt
]

first_stop-IsDone :
    (first : Option Error) (c d : Copier)
    → IsDone d.phase d
    → IsDone
        ((elim first as (λ x. Copier) [ some e ↦ stop_with e c | none ↦ d ]).phase)
        (elim first as (λ x. Copier) [ some e ↦ stop_with e c | none ↦ d ])
first_stop-IsDone none c d j = j
first_stop-IsDone (some e) c d j = stop_with-IsDone e c

first_or-IsDone :
    (first : Option Error) (c d : Copier)
    → (first ≡ none → IsDone d.phase d)
    → IsDone
        ((elim first as (λ x. Copier) [ some e ↦ record c { phase = failed e } | none ↦ d ]).phase)
        (elim first as (λ x. Copier) [ some e ↦ record c { phase = failed e } | none ↦ d ])
first_or-IsDone none c d j = j refl
first_or-IsDone (some e) c d j = tt

after_read-IsDone :
    (bytes : Text) (r : ReadEnd) (c : Copier)
    → c.phase ≡ reading
    → IsDone ((after_read (bytes, r) c).phase) (after_read (bytes, r) c)
unfolding issue
after_read-IsDone [] full c p = rw p tt
after_read-IsDone (b ∷ bytes) full c p = tt
after_read-IsDone [] at_end c p = tt
after_read-IsDone (b ∷ bytes) at_end c p = tt
after_read-IsDone bytes (broken e) c p = fail-IsDone ((get_err c).0) e ((get_err c).1)
  where
    fail-IsDone :
        (first : Option Error) (f : Error) (d : Copier)
        → IsDone ((fail first f d).phase) (fail first f d)
    fail-IsDone none f d = stop_with-IsDone f d
    fail-IsDone (some e) f d = stop_with-IsDone e d

send_chunk-IsDone :
    (size : ℕ) (c : Copier)
    → c.phase ≡ reading
    → IsDone ((send_chunk size c).phase) (send_chunk size c)
unfolding send_chunk
send_chunk-IsDone size c p =
    let (first, c') = get_err c in
    first_stop-IsDone first c' (after_read (read_full size c') c') (
      after_read-IsDone ((read_full size c').0) ((read_full size c').1) c'
        (ground (arith, get_err-same c, p)))

get_err-none : (c : Copier) → (get_err c).0 ≡ none → c.cancelled ≡ false
unfolding get_err
get_err-none c e = ground (arith, e)

-- No writer is waiting for a chunk only if there is none.
close-IsDone :
    (max : ℕ) (result : Option Error) (c : Copier)
    → 0 < max
    → c.held ≡ []
    → (c.queue ≡ []) ⊎ (c.idle ≡ 0)
    → (c.cancelled ≡ false → IsCalm max c)
    → IsDone ((close result c).phase) (close result c)
unfolding close
close-IsDone max result c m h q i =
    let (first, c') = get_err c in
    first_or-IsDone first c' _ (λ n.
      first_or-IsDone result c' (record c' { phase = committed c'.ids.all })
        (λ r.
          let calm = i (get_err-none c n) in
          record {
            drained = ground (arith, get_err-same c, q, calm.alive, h, m);
            idle_all = ground (arith, get_err-same c, h);
            uncancelled = get_err-cancelled c ∙ get_err-none c n;
            listed = refl;
          }))

either-IsDone :
    (f : Option Error) (a b : Copier)
    → IsDone a.phase a
    → IsDone b.phase b
    → IsDone
        ((elim f as (λ x. Copier) [ none ↦ a | some e ↦ b ]).phase)
        (elim f as (λ x. Copier) [ none ↦ a | some e ↦ b ])
either-IsDone none a b x y = x
either-IsDone (some e) a b x y = y

pub Step-IsDone :
    (size max : ℕ) (c d : Copier)
    → 0 < max
    → Step size c d
    → (c.cancelled ≡ false → IsCalm max c)
    → IsDone c.phase c
    → IsDone d.phase d
unfolding report
Step-IsDone size max c _ m (read p) i o = send_chunk-IsDone size c p
Step-IsDone size max c _ m (send chunk true p q) i o = tt
Step-IsDone size max c _ m (send chunk false p q) i o = tt
Step-IsDone size max c _ m (take_chunk chunk n q w) i o =
    keep-IsDone c.phase c _ (λ ids v. absurd (ground (arith, v.drained, q))) o
Step-IsDone size max c _ m (stage chunk before later h) i o =
    keep-IsDone c.phase c _ (λ ids v. absurd (no_middle chunk before later (sym v.idle_all ∙ h))) o
Step-IsDone size max c _ m (skip chunk before later h x) i o =
    keep-IsDone c.phase c _ (λ ids v. absurd (no_middle chunk before later (sym v.idle_all ∙ h))) o
Step-IsDone size max c _ m (give_up chunk before later e h x) i o =
    keep-IsDone c.phase c _ (λ ids v. absurd (no_middle chunk before later (sym v.idle_all ∙ h))) o
Step-IsDone size max c _ m (refuse chunk before later e h x) i o =
    let left =
      keep-IsDone c.phase c (record c { held = before ++ later })
        (λ ids v. absurd (no_middle chunk before later (sym v.idle_all ∙ h))) o in
    let gone =
      keep-IsDone c.phase c
        (record c { held = before ++ later; failure = some (write_error e); cancelled = true })
        (λ ids v. absurd (no_middle chunk before later (sym v.idle_all ∙ h))) o in
    either-IsDone c.failure _ _ gone left
Step-IsDone size max c _ m (finish result p h q) i o = close-IsDone max result c m h q i
