-- ===== src/Daemon/Start/Tests.antt =====
-- The start of the daemon and a reload, and the theorems at concrete data.
use robotd.Common.{◌≡◌, refl, codes, pos, negsuc, true, false, none, some, [], ◌∷◌, arith, str_eq}
use robotd.Directories.{pid_file, run_dir}
use robotd.Posix.Memory.{memory}
use robotd.Loader.Level.{info}
use robotd.Loader.State.{Loader, return}
use robotd.Loader.Settings.{Section, Root, Env, parsed}
use robotd.Loader.Config.{
  Loaded, returned, SlaveLoader, daemon_load_config, load_section, load_thread_count,
}
use robotd.Cli.State.{Process}
use robotd.Cli.Load.{ret, option_load, locate, save, retry}
use robotd.Daemon.Monitor.{in_child}
use robotd.Daemon.Start.{Answers, made, aborts, exits, daemon, daemonize, pid_path, set_pid_file}
use robotd.Daemon.Start.Fate.{IsErrno, daemon-refused}
use robotd.Daemon.Reload.{IsOneLine}

abbrev loader : Loader Unit
loader = record {
  log_to_file = false;
  thread_count = 2;
  lev = info;
  sink = none;
  ramsize = 0;
  log = none;
  reports = [];
  slaves = tt;
}

abbrev answers : Answers
answers = record {
  fork = in_child;
  fork_errno = 11;
  setsid = none;
  chdir = none;
  close_stdin = none;
  close_stdout = none;
  close_stderr = none;
  getpid = 70000;
}

answers-IsErrno : IsErrno answers
answers-IsErrno = record {
  fork = omega arith;
  setsid = λ h. cc;
  chdir = λ h. cc;
  close_stdin = λ h. cc;
  close_stdout = λ h. cc;
  close_stderr = λ h. cc;
}

abbrev disk : memory.World
unfolding memory
disk = record {
  files = (pid_file, codes "5\n") ∷ (codes "/etc/a.cfg", codes "") ∷ [];
  has_run_dir = true;
  procs = [];
  signals = [];
}

-- A load that succeeds and leaves a logger.
abbrev loads : Loader Unit → Loaded × Loader Unit
loads s = (
  returned (pos 0),
  record s {
    log_to_file = true;
    log = some (record {
      tag = codes "Daemon_logger";
      sink = record { base = []; max_size = 1 };
      level = info;
    });
  },
)

daemon_starts : (daemon memory (pid_path run_dir) loads answers disk loader).0 ≡ made
unfolding daemon daemonize set_pid_file memory
daemon_starts = refl

-- The default directory gives the file that the command line parser reads.
pid_path-run_dir : pid_path run_dir ≡ pid_file
pid_path-run_dir = refl

abbrev no_session_answers : Answers
no_session_answers = record answers { setsid = some 1 }

daemon_quits :
    (daemon memory (pid_path run_dir) loads no_session_answers disk loader).0 ≡ exits (pos 1)
unfolding daemon daemonize
daemon_quits = refl

-- A section with a thread count of 0.
abbrev bad_section : Section
bad_section = record {
  int_value = λ name. some (pos 0);
  uint_value = λ name. none;
  string_value = λ name. none;
}

abbrev bad_root : Root
bad_root name = some bad_section

abbrev environment : Env
environment = record {
  read_config = λ name. parsed bad_root;
  hardware = 4;
  can_append = λ name. true;
  can_sink = λ name. true;
}

abbrev slave : SlaveLoader Unit
slave root level to_file s = (returned (pos 0), s)

section_refused :
    (load_section environment (codes "Daemon") slave [] bad_section loader).0 ≡ return (negsuc 0)
unfolding load_section load_thread_count
section_refused = refl

daemon-refused_example :
    (daemon memory
      (pid_path run_dir)
      (daemon_load_config environment (codes "Daemon") slave [] (codes "a.cfg"))
      answers
      disk
      loader).0
    ≡ aborts
daemon-refused_example =
    daemon-refused memory (pid_path run_dir) answers disk environment (codes "Daemon") slave []
      (codes "a.cfg") bad_root bad_section loader (negsuc 0) refl refl refl section_refused

abbrev process : Process memory
process = record { world = disk; errno = 0; config_file = codes "a.cfg"; output = [] }

load_works : (option_load memory process).0 ≡ ret (pos 0)
unfolding option_load locate save retry memory str_eq
load_works = refl

one_line : IsOneLine (codes "/etc/a.cfg")
one_line = ground arith
