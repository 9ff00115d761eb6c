-- ===== src/Daemon/Tests.antt =====
-- Rounds of the monitor, and the theorems at concrete data.
use robotd.Common.{ℕ, ◌≡◌, refl, pos, true, false, Option, none, some, List, [], ◌∷◌, arith}
use robotd.Definitions.{sighup, sigterm, sigchld}
use robotd.Loader.Level.{info}
use robotd.Loader.State.{Loader}
use robotd.Loader.Config.{Loaded, returned}
use robotd.Daemon.Monitor.{
  in_child, in_parent, spawned, waited, signalled, Monitor, Round, running, ended, run, step,
  monitor_proc, SetupCall, first_failure,
}
use robotd.Daemon.Monitor.Children.{IsProper, monitor_proc-IsProper}
use robotd.Daemon.Monitor.Ends.{EndsBy, monitor_proc-EndsBy}
use robotd.Daemon.Monitor.Supervisor.{stopped, Reaches, phase, heard, monitor_proc-Reaches}
use robotd.Daemon.Monitor.Restarts.{starts, hang_ups, run-starts, run-hang_ups}

abbrev stays : Loader Unit → Loaded × Loader Unit
stays s = (returned (pos 0), s)

-- A round: the child, the signal, and the status that `wait` gives.
abbrev round : ℕ → ℕ → ℕ → Round Unit
round child signal status = record {
  fork = in_parent child;
  work_proc = 2;
  sigwaitinfo = some signal;
  wait = some status;
  reload_config = stays;
  kill = true;
}

abbrev loader : Loader Unit
loader = record {
  log_to_file = false;
  thread_count = 2;
  lev = info;
  sink = none;
  ramsize = 0;
  log = none;
  reports = [];
  slaves = tt;
}

abbrev fresh : Monitor Unit
fresh = record {
  pid = in_child;
  status = 0;
  need_start = true;
  signo = 0;
  loader = loader;
  events = [];
  output = [];
}

abbrev all_succeed : SetupCall → Option ℕ
all_succeed c = none

-- A restart, a reload, and the end by SIGTERM.
abbrev day : List (Round Unit)
day = round 100 sigchld 768 ∷ round 101 sighup 0 ∷ round 102 sigterm 0 ∷ []

day_ends :
    ((monitor_proc all_succeed day fresh).0 ≡ ended 0)
    × ((monitor_proc all_succeed day fresh).1.events
        ≡ signalled 101 sigterm ∷ signalled 101 sighup ∷ spawned 101 ∷ waited ∷ spawned 100 ∷ [])
unfolding monitor_proc first_failure run step
day_ends = (refl, refl)

-- A child that exits with CHILD_NEED_TERMINATE ends the monitor with that number.
terminate_ends : (monitor_proc all_succeed (round 100 sigchld 512 ∷ []) fresh).0 ≡ ended 2
unfolding monitor_proc first_failure run step
terminate_ends = refl

monitor_proc-IsProper_example : IsProper (monitor_proc all_succeed day fresh).1.events
monitor_proc-IsProper_example = monitor_proc-IsProper all_succeed day fresh refl

monitor_proc-EndsBy_example : EndsBy 0 (monitor_proc all_succeed day fresh).1.events
unfolding day_ends
monitor_proc-EndsBy_example = monitor_proc-EndsBy all_succeed day fresh 0 day_ends.0

run-starts_example :
    let rounds = round 100 sigchld 768 ∷ round 101 sigchld 11 ∷ [] in
    ((run rounds fresh).0 ≡ running) × (starts (run rounds fresh).1.events ≡ 2)
run-starts_example =
    run-starts (round 100 sigchld 768 ∷ round 101 sigchld 11 ∷ []) fresh
      (
        record {
          child = 100;
          started = refl;
          signal = refl;
          code = 768;
          reaped = refl;
          restarts = λ h. omega (arith, h);
        },
        (
          record {
            child = 101;
            started = refl;
            signal = refl;
            code = 11;
            reaped = refl;
            restarts = λ h. omega (arith, h);
          },
          tt,
        ),
      )
      refl

abbrev busy : Monitor Unit
busy = record fresh { pid = in_parent 7; need_start = false }

run-hang_ups_example :
    let rounds = round 8 sighup 0 ∷ round 9 sighup 0 ∷ [] in
    ((run rounds busy).0 ≡ running) × ((run rounds busy).1.events ≡ hang_ups 2 7 [])
run-hang_ups_example =
    run-hang_ups (round 8 sighup 0 ∷ round 9 sighup 0 ∷ []) busy 7
      (
        record { signal = refl; reloads = λ s h. cc },
        (record { signal = refl; reloads = λ s h. cc }, tt),
      )
      refl refl

day-phase :
    phase (monitor_proc all_succeed day fresh).0 (monitor_proc all_succeed day fresh).1 ≡ stopped
unfolding monitor_proc first_failure run step
day-phase = refl

monitor_proc-Reaches_example :
    let (o, n) = monitor_proc all_succeed day fresh in
    Reaches (heard [] day fresh) n.events (phase o n)
unfolding first_failure
monitor_proc-Reaches_example = monitor_proc-Reaches all_succeed day fresh refl refl
