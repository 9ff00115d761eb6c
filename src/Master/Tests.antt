-- ===== src/Master/Tests.antt =====
-- The Master process with one server, a line of a backtrace, and the theorems at concrete data.
use robotd.Common.{
  ℕ, ◌<◌, ◌≡◌, refl, Bytes, codes, pos, true, false, Option, none, some, List, [], ◌∷◌, arith, All,
  ◌⊎◌,
}
use robotd.Definitions.{sighup, sigterm, sigchld, child_need_terminate, child_need_work}
use robotd.Loader.Level.{info, debug}
use robotd.Loader.State.{Loader, Sink}
use robotd.Loader.Config.{Loaded, returned}
use robotd.Daemon.Monitor as Monitor
use robotd.Daemon.Monitor.{Monitor, in_child, in_parent, first_failure}
use robotd.TcpServer.Server.{Calls, tcp_server}
use robotd.Master.Services.{
  Slave, register_all_services, update_all_loggers, set_level, run_all_services,
}
use robotd.Master.Work.{
  Call, Master, Outcome, returns, exited, Round, work_proc, loop, step, reload,
}
use robotd.Master.Work as Work
use robotd.Master.Class.{Shift, child, master_class}
use robotd.Master.Class.Child.{child-step}
use robotd.Master.Work.Serving.{IsServing, work_proc-IsServing}
use robotd.Master.Work.Fate.{wait_status}
use robotd.Master.Backtrace.{
  frame, whole, log_line, scan, self_debug, self_debug_wrapper, exits, Fault, signal_line,
  begin_backtrace, traced, end_backtrace, stopped,
}
use robotd.Master.Backtrace.Address.{IsAddressed, self_debug_wrapper-IsAddressed}
use robotd.Common.Hex.{to_hex}
use robotd.Master.Backtrace.Parts.{IsPlain, join, frame_pieces, log_line-frame}
use robotd.Master.Backtrace.Frames.{Frame, line_of, logged_of, self_debug-map}

abbrev file : Sink
file = record { base = codes "/var/log/robot"; max_size = 40960 }

abbrev loader : Loader Unit
loader = record {
  log_to_file = true;
  thread_count = 2;
  lev = info;
  sink = some file;
  ramsize = 0;
  log = none;
  reports = [];
  slaves = tt;
}

abbrev master : Master Unit
master = record { loader = loader; services = []; threads = 0; signo = 0; output = [] }

abbrev free : Calls
free = record { resolve = true; opening = none; set_option = true; bind = none; listen = true }

abbrev in_use : Calls
in_use = record free { bind = some 98 }

abbrev server : Calls → Slave
server a = record { tag = codes "Server(Slave)"; construct = tcp_server false a }

-- A reload to the level `debug`.
abbrev to_debug : Loader Unit → Loaded × Loader Unit
to_debug s = (returned (pos 0), record s { lev = debug })

abbrev signals : List (Round Unit)
signals =
    record { sigwait = some sighup; load = to_debug }
    ∷ record { sigwait = some sigterm; load = to_debug }
    ∷ []

abbrev all_succeed : Call → Option ℕ
all_succeed c = none

work : Option ℕ → Outcome × Master Unit
unfolding work_proc first_failure register_all_services loop step reload update_all_loggers
    set_level run_all_services tcp_server
work bind = work_proc all_succeed (server (record free { bind = bind }) ∷ []) signals master

work_returns : ((work none).0 ≡ returns 2) × ((work none).1.threads ≡ 2)
unfolding work
work_returns = (refl, refl)

work_exits : (work (some 98)).0 ≡ exited 3
unfolding work
work_exits = refl

work_proc-IsServing_example :
    IsServing (some file) (work_proc all_succeed (server free ∷ []) signals master).1
unfolding work
work_proc-IsServing_example =
    work_proc-IsServing all_succeed (server free ∷ []) signals master refl (λ h. cc)

abbrev monitor : Monitor Unit
monitor = record {
  pid = in_child;
  status = 0;
  need_start = true;
  signo = 0;
  loader = loader;
  events = [];
  output = [];
}

-- The child ends by `exit(n)`.
abbrev child_exits : ℕ → Monitor.Round Unit
child_exits n = record {
  fork = in_parent 100;
  work_proc = 0;
  sigwaitinfo = some sigchld;
  wait = some (wait_status n);
  reload_config = to_debug;
  kill = true;
}

abbrev demangled : Bytes → Option Bytes
demangled name = some (codes "f(int)")

abbrev shift : Shift Unit
shift = record { setrlimit = λ limit. none; answer = all_succeed; rounds = signals }

-- The process that finds its address in use.
abbrev last : Option (Outcome × Master Unit)
last = child (master_class false demangled) (server in_use ∷ []) 0 shift loader

abbrev after : Option (Outcome × Master Unit) → Master Unit
after none = master
after (some (o, m)) = m

last_exits : last ≡ some (exited 3, after last)
unfolding work child Work.master master_class
last_exits = refl

child-step_example :
    ((3 ≡ child_need_terminate)
      × ((Monitor.step (child_exits 3) monitor).0 ≡ Monitor.ended child_need_terminate))
    ⊎ ((3 ≡ child_need_work)
        × ((Monitor.step (child_exits 3) monitor).0 ≡ Monitor.running)
        × ((Monitor.step (child_exits 3) monitor).1.need_start ≡ true))
child-step_example =
    child-step false demangled (server in_use ∷ []) 0 shift loader 3 (after last) 100
      (child_exits 3) monitor ((in_use, refl), tt) last_exits refl refl refl refl

line_text :
    join (frame_pieces (codes "./m") (codes "_Z1fi") (codes "0x1") (codes "0x8"))
    ≡ codes "./m(_Z1fi+0x1) [0x8]"
line_text = refl

log_line-whole : log_line demangled (codes "./m [0x8]") ≡ whole (codes "./m [0x8]")
unfolding log_line scan
log_line-whole = refl

plain : (c : ℕ) → 47 < c → c < 91 → IsPlain c
plain c l u = record {
  no_open = λ h. omega (arith, h, l);
  no_plus = λ h. omega (arith, h, l);
  no_close = λ h. omega (arith, h, l);
  no_left = λ h. omega (arith, h, u);
  no_right = λ h. omega (arith, h, u);
  no_nul = λ h. omega (arith, h, l);
}

abbrev abc : Bytes
abc = codes "A"

abc-All : All IsPlain abc
abc-All = (plain b'A' (omega arith) (omega arith), tt)

log_line-frame_example :
    log_line demangled (join (frame_pieces abc abc abc abc)) ≡ frame abc (codes "f(int)") abc abc
log_line-frame_example = log_line-frame abc abc abc abc demangled abc-All abc-All abc-All abc-All

abbrev one_frame : Frame
one_frame = record { module_name = abc; function = abc; offset = abc; addr = abc }

-- A write to address 16, found at 4096.
abbrev fault : Fault
fault = record {
  signal_text = codes "Segmentation fault";
  si_addr = 16;
  error_addr = 4096;
  trace = 1 ∷ 2 ∷ [];
  symbols = λ trace. some (abc ∷ line_of one_frame ∷ []);
}

self_debug-map_example : self_debug false demangled fault ≡ (
  exits 3,
  signal_line fault.signal_text (to_hex 16 16)
      ∷ begin_backtrace
      ∷ traced (logged_of demangled one_frame)
      ∷ end_backtrace
      ∷ stopped
      ∷ [],
)
self_debug-map_example =
    self_debug-map demangled false fault 1 2 [] abc (one_frame ∷ []) refl refl (
      record {
        plain_module = abc-All;
        plain_function = abc-All;
        plain_offset = abc-All;
        plain_addr = abc-All;
      },
      tt,
    )

address_text : to_hex 16 48879 ≡ codes "000000000000beef"
unfolding to_hex
address_text = refl

self_debug_wrapper-IsAddressed_example :
    IsAddressed fault (self_debug_wrapper false demangled (some tt) fault).1
self_debug_wrapper-IsAddressed_example =
    self_debug_wrapper-IsAddressed fault false demangled tt (omega arith)
