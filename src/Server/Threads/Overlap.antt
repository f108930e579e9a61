-- ===== src/Server/Threads/Overlap.antt =====
-- What the lock and the log do not give to operations that overlap.
use clickhouse_backup.Base.{
  ℕ, Text, false, ◌≡◌, refl, sym, ap, ◌∙◌, ◌++◌, Option, none, some, List, [], ◌∷◌, Error, arith,
  append-nil, append_assoc,
}
use clickhouse_backup.Config.{Config}
use clickhouse_backup.Server.Status.{AsyncStatus, CommandInfo, start, stop}
use clickhouse_backup.Server.Api.{Job, create_job, try_acquire, release}
use clickhouse_backup.Server.Jobs.{command_of, begin_job, finish_job}
use clickhouse_backup.Server.Threads.{
  System, new_server, new_system, Step, transfer, background, enter, leave, leave_unstopped, update,
  begin, finish, Reach, here, next,
}

-- The commands that are not the last one.
abbrev pub settled : AsyncStatus → AsyncStatus
settled [] = []
settled (c ∷ []) = []
settled (c ∷ d ∷ log) = c ∷ settled (d ∷ log)

settled-append : (log : AsyncStatus) (c : CommandInfo) → settled (log ++ (c ∷ [])) ≡ log
settled-append [] c = refl
settled-append (b ∷ []) c = refl
settled-append (b ∷ d ∷ log) c = ap (◌∷◌ b) (settled-append (d ∷ log) c)

-- The old log with more behind it.
abbrev Extends : AsyncStatus → AsyncStatus → Type 0
Extends old new = (more : AsyncStatus) × (new ≡ old ++ more)

Extends-settled : (log : AsyncStatus) → Extends (settled log) log
Extends-settled [] = ([], refl)
Extends-settled (c ∷ []) = (c ∷ [], refl)
Extends-settled (c ∷ d ∷ log) = let (more, e) = Extends-settled (d ∷ log) in (more, ap (◌∷◌ c) e)

start-Extends :
    (command : Text) (now : ℕ) (log : AsyncStatus)
    → Extends (settled log) (settled (start command now log))
unfolding start
start-Extends command now log =
    let (more, e) = Extends-settled log in (more, settled-append log _ ∙ e)

abbrev Settles : AsyncStatus → Option AsyncStatus → Type 0
Settles old none = Unit
Settles old (some log) = settled log ≡ old

stop-Settles :
    (failure : Option Error) (now : ℕ) (log : AsyncStatus)
    → Settles (settled log) (stop failure now log)
unfolding stop
stop-Settles failure now [] = tt
stop-Settles failure now (c ∷ []) = refl
stop-Settles failure now (c ∷ d ∷ []) = refl
stop-Settles failure now (c ∷ d ∷ e ∷ log) = ground (arith, stop-Settles failure now (d ∷ e ∷ log))

Step-Extends : {s t : System} → Step s t → Extends (settled s.api.status) (settled t.api.status)
unfolding try_acquire release begin_job finish_job
Step-Extends (transfer job) = ([], sym (append-nil _))
Step-Extends {s} (background job clock held e) = ([], rw append-nil (ground arith))
Step-Extends {s} (enter operation now held e) =
    let same : held.status ≡ s.api.status = ground arith in
    rw same (start-Extends operation now s.api.status)
Step-Extends {s} (leave operation others failure now log e f) =
    ([], rw append-nil (ground (arith, stop-Settles failure now s.api.status)))
Step-Extends {s} (leave_unstopped operation others e) = ([], sym (append-nil _))
Step-Extends {s} (update config held e) = ([], rw append-nil (ground arith))
Step-Extends {s} (begin job now before later e) = start-Extends (command_of job) now s.api.status
Step-Extends {s} (finish job failure now before later api e f) =
    ([], rw append-nil (ground (arith, stop-Settles failure now s.api.status)))

Reach-Extends : {s t : System} → Reach s t → Extends (settled s.api.status) (settled t.api.status)
Reach-Extends here = ([], sym (append-nil _))
Reach-Extends {s} (next r st) =
    let (more, e) = Reach-Extends r in
    let (more', e') = Step-Extends st in
    (more ++ more', e' ∙ ap (λ l. l ++ more') e ∙ append_assoc (settled s.api.status) more more')

settled-two :
    (before : AsyncStatus) (c d : CommandInfo) (later : AsyncStatus)
    → Extends (before ++ (c ∷ [])) (settled (before ++ (c ∷ d ∷ later)))
settled-two [] c d later = (settled (d ∷ later), refl)
settled-two (b ∷ []) c d later = let (more, e) = settled-two [] c d later in (more, ap (◌∷◌ b) e)
settled-two (b ∷ b' ∷ before) c d later =
    let (more, e) = settled-two (b' ∷ before) c d later in (more, ap (◌∷◌ b) e)

-- A command behind which another one has been started keeps its entry in the log for good,
-- whatever handlers and goroutines do: if it was in progress, it is reported so for ever.
pub overtaken_for_good :
    (s t : System) (before later : AsyncStatus) (c d : CommandInfo)
    → s.api.status ≡ before ++ (c ∷ d ∷ later)
    → Reach s t
    → (rest : AsyncStatus) × (t.api.status ≡ (before ++ (c ∷ [])) ++ rest)
overtaken_for_good s t before later c d e r =
    let (more, e₁) = settled-two before c d later in
    let (more', e₂) = Reach-Extends r in
    let (more'', e₃) = Extends-settled t.api.status in
    (
      more ++ more' ++ more'',
      e₃
          ∙ ap (λ l. l ++ more'') (e₂ ∙ ap (λ l. settled l ++ more') e ∙ ap (λ l. l ++ more') e₁)
          ∙ simp append_assoc,
    )

-- From the start of the server a state can be reached in which the goroutines of two accepted
-- requests for a backup both run, while the lock is free.
pub create_overlap :
    (config : Config) (routes : List Text) (name pattern name' pattern' : Text)
    → (s : System) × Reach (new_system config routes) s
      × (s.running ≡ create_job name' pattern' ∷ create_job name pattern ∷ [])
      × (s.api.locked ≡ false)
unfolding new_server try_acquire release begin_job
create_overlap config routes name pattern name' pattern' =
    let clock : ℕ → ℕ = λ n. n in
    let job : Job = create_job name pattern in
    let job' : Job = create_job name' pattern' in
    (
      _,
      next
          (next (next (next here (background job clock _ refl)) (background job' clock _ refl))
            (begin job 0 [] (job' ∷ []) refl))
          (begin job' 0 [] [] refl),
      refl,
      refl,
    )
