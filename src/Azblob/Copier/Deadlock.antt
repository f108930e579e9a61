-- ===== src/Azblob/Copier/Deadlock.antt =====
-- An upload that waits for ever.
use clickhouse_backup.Base.{
  ℕ, ◌≡◌, refl, Text, false, none, List, [], ◌∷◌, ◌++◌, Error, is_canceled, arith,
}
use clickhouse_backup.Azblob.Ids.{block_id, new_id, next}
use clickhouse_backup.Azblob.Copier.{
  Chunk, sending, Copier, new_copier, get_err, read_full, issue, send_chunk, report, Step, read,
  send, take_chunk, stage, skip, refuse, give_up, finish, Reach, here, next_step,
}

-- The reader waits to send, and nothing can happen.
pub record IsStuck (size : ℕ) (c : Copier) : Type 0 where
  pub chunk : Chunk
  pub waiting : c.phase ≡ sending chunk false
  pub no_step : (d : Copier) → ¬ Step size c d

no_held : (chunk : Chunk) (before later : List Chunk) → ¬ ([] ≡ before ++ (chunk ∷ later))
no_held chunk [] later e = absurd (ground (arith, e))
no_held chunk (b ∷ before) later e = absurd (ground (arith, e))

-- The reader waits, the channel is full, and no writer is left.
no_writer :
    (size : ℕ) (c : Copier) (chunk queued : Chunk)
    → c.phase ≡ sending chunk false
    → c.queue ≡ queued ∷ []
    → c.idle ≡ 0
    → c.held ≡ []
    → (d : Copier) → ¬ Step size c d
no_writer size c chunk queued p q i h _ (read p') = ground (arith, p, p')
no_writer size c chunk queued p q i h _ (send chunk' last p' q') = ground (arith, q, q')
no_writer size c chunk queued p q i h _ (take_chunk chunk' n q' i') = ground (arith, i, i')
no_writer size c chunk queued p q i h _ (stage chunk' before later h') =
    no_held chunk' before later (rw⁻¹ h h')
no_writer size c chunk queued p q i h _ (skip chunk' before later h' x) =
    no_held chunk' before later (rw⁻¹ h h')
no_writer size c chunk queued p q i h _ (refuse chunk' before later e h' x) =
    no_held chunk' before later (rw⁻¹ h h')
no_writer size c chunk queued p q i h _ (give_up chunk' before later e h' x) =
    no_held chunk' before later (rw⁻¹ h h')
no_writer size c chunk queued p q i h _ (finish result p' h' q') = ground (arith, p, p')

-- An upload of three bytes in blocks of one, with one writer and whatever error of the storage
-- that neither is nor wraps `context.Canceled`, can reach a state in which the reader waits to
-- send and no step is possible.
pub copier_deadlock :
    (uuid : Text) (x y z : ℕ) (e : Error)
    → is_canceled e ≡ false
    → (s : Copier) × Reach 1 (new_copier uuid (x ∷ y ∷ z ∷ []) none 1) s × IsStuck 1 s
unfolding new_copier new_id next get_err read_full issue send_chunk report
copier_deadlock uuid x y z e real =
    let block : ℕ → ℕ → Chunk = λ n byte. record { buffer = byte ∷ []; id = block_id uuid n } in
    (
      _,
      next_step
          (next_step
            (next_step
              (next_step
                (next_step
                  (next_step (next_step here (read refl)) (send (block 0 x) false refl refl))
                  (take_chunk (block 0 x) 0 refl refl))
                (read refl))
              (send (block 1 y) false refl refl))
            (read refl))
          (refuse (block 0 x) [] [] e refl real),
      record {
        chunk = block 2 z;
        waiting = refl;
        no_step = no_writer 1 _ (block 2 z) (block 1 y) refl refl refl refl;
      },
    )
