-- ===== src/Server/Threads/Invariant.antt =====
-- What holds in every state that the server reaches.
use clickhouse_backup.Base.{
  ℕ, suc, ◌+◌, ◌≤◌, ◌<◌, Text, Bool, true, ◌≡◌, ◌↔◌, refl, ap, ◌++◌, Option, none, some, List, [],
  ◌∷◌, Error, length, length-append, arith, if◌then◌else◌,
}
use clickhouse_backup.Config.{Config}
use clickhouse_backup.Server.Status.{AsyncStatus, start, stop, close_command}
use clickhouse_backup.Server.Api.{Job, try_acquire, release}
use clickhouse_backup.Server.Jobs.{command_of, begin_job, finish_job}
use clickhouse_backup.Server.Threads.{
  System, new_server, new_system, Step, transfer, background, enter, leave, leave_unstopped, update,
  begin, finish, Reach, here, next,
}

abbrev pub weight : Bool → ℕ
weight b = if b then 1 else 0

-- The lock is held by exactly the handlers inside, and whoever will call `stop` has called `start`.
pub record Inv (s : System) : Type 0 where
  pub held : length s.inside ≡ weight s.api.locked
  pub logged : 0 < length s.inside + length s.running → 0 < length s.api.status

pub length-start :
    (command : Text) (now : ℕ) (log : AsyncStatus) → length (start command now log) ≡ length log + 1
unfolding start
length-start command now log = omega (arith, length-append log)

abbrev pub HasLength : ℕ → Option AsyncStatus → Type 0
HasLength n none = Unit
HasLength n (some log) = length log ≡ n

-- `stop` opens and drops no command.
stop-HasLength :
    (failure : Option Error) (now : ℕ) (log : AsyncStatus)
    → HasLength (length log) (stop failure now log)
unfolding stop
stop-HasLength failure now [] = tt
stop-HasLength failure now (c ∷ []) = refl
stop-HasLength failure now (c ∷ d ∷ log) = ground (arith, stop-HasLength failure now (d ∷ log))

stop_total :
    (failure : Option Error) (now : ℕ) (log : AsyncStatus)
    → 0 < length log
    → (log' : AsyncStatus) × (stop failure now log ≡ some log')
unfolding stop
stop_total failure now [] h = absurd (omega arith)
stop_total failure now (c ∷ []) h = (close_command failure now c ∷ [], refl)
stop_total failure now (c ∷ d ∷ log) h =
    let (rest, e) = stop_total failure now (d ∷ log) (omega arith) in (c ∷ rest, rw e)

length-without :
    (before later : List Job) (job : Job)
    → length (before ++ (job ∷ later)) ≡ suc (length (before ++ later))
length-without [] later job = refl
length-without (b ∷ before) later job = ap suc (length-without before later job)

pub Step-Inv : {s t : System} → Step s t → Inv s → Inv t
unfolding try_acquire release begin_job finish_job
Step-Inv (transfer job) i = record { held = i.held; logged = i.logged }
Step-Inv {s} (background job clock held e) i = record {
  held = ground (arith, i.held);
  logged = ground (arith, i.logged);
}
Step-Inv {s} (enter operation now held e) i = record {
  held = ground (arith, i.held);
  logged = λ h. ground (arith, length-start operation now s.api.status);
}
Step-Inv {s} (leave operation others failure now log e f) i = record {
  held = ground (arith, i.held);
  logged = λ h. ground (arith, i.held, i.logged, stop-HasLength failure now s.api.status);
}
Step-Inv {s} (leave_unstopped operation others e) i = record {
  held = ground (arith, i.held);
  logged = λ h. ground (arith, i.held, i.logged);
}
Step-Inv {s} (update config held e) i = record {
  held = ground (arith, i.held);
  logged = ground (arith, i.logged);
}
Step-Inv {s} (begin job now before later e) i = record {
  held = i.held;
  logged = λ h. omega (arith, length-start (command_of job) now s.api.status);
}
Step-Inv {s} (finish job failure now before later api e f) i = record {
  held = ground (arith, i.held);
  logged = λ h. ground (
    arith,
    length-without before later job,
    i.logged,
    ap length e,
    stop-HasLength failure now s.api.status,
  );
}

pub Reach-Inv : {s t : System} → Inv s → Reach s t → Inv t
Reach-Inv i here = i
Reach-Inv i (next r st) = Step-Inv st (Reach-Inv i r)

pub new_system-Inv : (config : Config) (routes : List Text) → Inv (new_system config routes)
unfolding new_server
new_system-Inv config routes = record { held = refl; logged = λ h. omega arith }

-- From the start of the server on, whatever handlers and goroutines do, at most one handler is
-- between taking the lock and giving it back, and one is exactly if the lock is held.
pub mutual_exclusion :
    (config : Config) (routes : List Text) (s : System)
    → Reach (new_system config routes) s
    → (length s.inside ≤ 1) × ((s.api.locked ≡ true) ↔ (length s.inside ≡ 1))
mutual_exclusion config routes s r =
    let i : Inv s = Reach-Inv (new_system-Inv config routes) r in
    (ground (arith, i.held), (λ h. ground (arith, i.held), λ h. ground (arith, i.held)))

-- From the start of the server on, whenever a handler is inside the lock or a goroutine is
-- running, a call of `stop` finds a command in the log, so it does not panic.
pub stop-in_reach :
    (config : Config) (routes : List Text) (s : System) (failure : Option Error) (now : ℕ)
    → Reach (new_system config routes) s
    → 0 < length s.inside + length s.running
    → (log : AsyncStatus) × (stop failure now s.api.status ≡ some log)
stop-in_reach config routes s failure now r busy =
    stop_total failure now s.api.status ((Reach-Inv (new_system-Inv config routes) r).logged busy)
