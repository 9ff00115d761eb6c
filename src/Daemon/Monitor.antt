-- ===== src/Daemon/Monitor.antt =====
-- `monitor_proc` of daemon/daemon_impl.hpp: the loop that starts the 'Master' process and waits for
-- signals. What the calls of one round of the loop answer is a parameter of the round.

pub mod Children
pub mod Ends
pub mod Restarts
pub mod Supervisor
pub mod Stops
pub mod Reloads
use robotd.Common.{
  ℕ, ◌/◌, ◌%◌, ◌++◌, ℤ, pos, is_nonzero, Bool, true, false, Option, none, some, List, [], ◌∷◌, ◌==◌,
  if◌then◌else◌, ◌≡◌, ◌≢◌, refl, ◌⊎◌, inl, inr,
}
use robotd.Definitions.{
  child_need_terminate, child_need_work, sighup, sigterm, sigchld, sigquit, sigint,
}
use robotd.Loader.State.{Loader}
use robotd.Loader.Config.{Loaded, returned, thrown}

-- `fork`: -1, 0 in the new process, and the number of the new process in the old one.
pub data Forked : Type 0 where
  fork_failed in_child : Forked
  in_parent : ℕ → Forked

-- The calls that fill and block the signal set: `none` is success.
pub data SetupCall : Type 0 where
  sigemptyset sigprocmask : SetupCall
  sigaddset : ℕ → SetupCall

abbrev pub setup_calls : List SetupCall
setup_calls =
    sigemptyset
    ∷ sigaddset sigquit
    ∷ sigaddset sigint
    ∷ sigaddset sigterm
    ∷ sigaddset sigchld
    ∷ sigaddset sighup
    ∷ sigprocmask
    ∷ []

-- The first call that fails.
unfoldable pub first_failure {ℓ} : {C : Type ℓ} → (C → Option ℕ) → List C → Option C
first_failure answer [] = none
first_failure answer (c ∷ calls) =
    let later = first_failure answer calls in elim (answer c) [ none ↦ later | some e ↦ some c ]

-- The calls that concern processes, and the lines of the log.
pub data Event : Type 0 where
  spawned : ℕ → Event
  -- `wait`, and the process number and signal of `kill`
  waited : Event
  signalled : ℕ → ℕ → Event

pub data Message : Type 0 where
  not_forked no_signal master_stopped master_restart reload_failed reload_ok no_sighup no_sigterm
        stop :
      Message
  received : ℕ → Message
  setup_failed : SetupCall → Message

abbrev reload_message : ℤ → Message
reload_message n = if is_nonzero n then reload_failed else reload_ok

-- The members that `monitor_proc` uses, with its variables `need_start` and `siginfo.si_signo`. The
-- events and the messages are kept with the last one first.
pub record Monitor (S : Type 0) : Type 0 where
  pub pid : Forked
  pub status : ℕ
  pub need_start : Bool
  pub signo : ℕ
  pub loader : Loader S
  pub events : List Event
  pub output : List Message

-- What the calls answer in one round: `fork`, if it is called; `work_proc`, in the new process;
-- `sigwaitinfo`, where `none` is -1; `wait`, which leaves the status as it was if it fails;
-- `reload_config`; and whether `kill` succeeds.
pub record Round (S : Type 0) : Type 0 where
  pub fork : Forked
  pub work_proc : ℕ
  pub sigwaitinfo : Option ℕ
  pub wait : Option ℕ
  pub reload_config : Loader S → Loaded × Loader S
  pub kill : Bool

-- The loop goes on; `monitor_proc` returns; the process ends by `exit`, or by an exception that
-- `throw()` does not let through.
pub data Outcome : Type 0 where
  running aborted : Outcome
  ended : ℕ → Outcome
  exited : ℕ → Outcome

pub running-cases : (o : Outcome) → (o ≡ running) ⊎ (o ≢ running)
running-cases running = inl refl
running-cases aborted = inr (λ h. cc)
running-cases (ended n) = inr (λ h. cc)
running-cases (exited n) = inr (λ h. cc)

-- `WEXITSTATUS`
abbrev pub exit_code : ℕ → ℕ
exit_code status = (status / 256) % 256

module _ {S : Type 0} where
  abbrev pub say : Message → Monitor S → Monitor S
  say message m = record m { output = message ∷ m.output }

  abbrev pub note : Event → Monitor S → Monitor S
  note event m = record m { events = event ∷ m.events }

  abbrev noted_fork : Forked → Monitor S → Monitor S
  noted_fork fork_failed m = m
  noted_fork in_child m = m
  noted_fork (in_parent p) m = note (spawned p) m

  -- `if (need_start) pid = fork(); need_start = 1;`
  start_child : Round S → Monitor S → Monitor S
  start_child r m =
      if m.need_start
      then noted_fork r.fork (record m { pid = r.fork })
      else record m { need_start = true }

  wait_child : Round S → Monitor S → Monitor S
  wait_child r m = elim r.wait [
    | none ↦ record (note waited m) { status = exit_code m.status }
    | some s ↦ record (note waited m) { status = exit_code s }
  ]

  -- SIGCHLD
  child_changed : Monitor S → Outcome × Monitor S
  child_changed m =
      if m.status == child_need_terminate
      then (ended m.status, say stop (say master_stopped m))
      else if m.status == child_need_work
      then (running, say master_restart m)
      else (running, m)

  abbrev told : Bool → Message → Monitor S → Monitor S
  told true message m = m
  told false message m = say message m

  forward : Round S → ℕ → Monitor S → Outcome × Monitor S
  forward r p m =
      (running, record (told r.kill no_sighup (note (signalled p sighup) m)) { need_start = false })

  -- SIGHUP
  hang_up : Round S → ℕ → Monitor S → Outcome × Monitor S
  unfolding forward
  hang_up r p m =
      let (loaded, t) = r.reload_config m.loader in
      let n = record m { loader = t } in
      elim loaded [ thrown ↦ (aborted, n) | returned k ↦ forward r p (say (reload_message k) n) ]

  -- Any other signal.
  terminate : Round S → ℕ → Monitor S → Outcome × Monitor S
  terminate r p m =
      let n = told r.kill no_sigterm (note (signalled p sigterm) (say (received m.signo) m)) in
      (ended 0, say stop (record n { status = 0 }))

  handle : Round S → ℕ → Monitor S → Outcome × Monitor S
  unfolding wait_child child_changed hang_up terminate
  handle r p m =
      if m.signo == sigchld
      then child_changed (wait_child r m)
      else if m.signo == sighup
      then hang_up r p m
      else terminate r p m

  -- `sigwaitinfo`; after a failure `siginfo` is as it was.
  take_signal : Option ℕ → Monitor S → Monitor S
  take_signal none m = say no_signal m
  take_signal (some signal) m = record m { signo = signal }

  dispatch : Round S → Forked → Monitor S → Outcome × Monitor S
  unfolding handle take_signal
  dispatch r fork_failed m = (exited 1, say not_forked m)
  dispatch r in_child m = (exited r.work_proc, record m { status = r.work_proc })
  dispatch r (in_parent p) m = handle r p (take_signal r.sigwaitinfo m)

  -- One round of the loop.
  unfoldable pub step : Round S → Monitor S → Outcome × Monitor S
  unfolding start_child dispatch
  step r m = let n = start_child r m in dispatch r n.pid n

  -- The loop, for as many rounds as there are.
  unfoldable pub run : List (Round S) → Monitor S → Outcome × Monitor S
  run [] m = (running, m)
  run (r ∷ rounds) m =
      let (o, n) = step r m in
      let later = run rounds n in
      elim o [
        | running ↦ later
        | aborted ↦ (aborted, n)
        | ended k ↦ (ended k, n)
        | exited k ↦ (exited k, n)
      ]

  unfoldable pub monitor_proc :
      (SetupCall → Option ℕ) → List (Round S) → Monitor S → Outcome × Monitor S
  monitor_proc answer rounds m = elim (first_failure answer setup_calls) [
    | some c ↦ (exited 1, say (setup_failed c) m)
    | none ↦ run rounds (record m { need_start = true })
  ]
