-- ===== src/Lib.antt =====
-- robotd: a verification library for the daemon robotd.
--
-- The program: the command line parser (daemon/cli_parser.cpp) decides what a call of robotd does and
-- talks to a running daemon by its PID file, by the file with the path of its configuration, and by
-- signals. main (server_main.cpp) then makes robot::daemon (daemon/daemon_impl.hpp), whose constructor
-- loads the configuration (loader/loader_impl.hpp), goes to the background and writes the PID file, and
-- whose monitor_proc starts the 'Master' process, restarts it and hands signals on to it. The Master
-- process runs the slaves; the one there is, slaves/test/tcp_server.cpp, accepts connections and answers
-- them with HTTP replies.
--
-- Files and code:
--   Common and its children: lists, texts as lists of bytes, C integers, decimal and hexadecimal numbers.
--   Definitions, Directories: include/definitions.hpp, include/config.h, directories.cpp.
--   Posix: the operating system as a parameter, with the behaviour that theorems rely on (IsPosix, and in
--     Posix.Files which files a call leaves alone, IsFiles);
--     Posix.Memory is a small system that has both.
--   Cli: daemon/cli_parser.cpp and the decision of main. State has the state of the process, Options the
--     table of options and the texts made from it, Load option_load, Scan what fscanf and readdir read,
--     Parse parse_options and no_daemon_process. A function of the program has the name it has in the
--     source; a part of one that is a definition of its own has a name for what it does.
--   Loader: loader/loader_impl.hpp. Level has the log levels, Size size_parse, Settings the parameters
--     for libconfig++, State the static and other members of robot::loader and the early returns, Config
--     load_slave_config and daemon_load_config, Class the class of loader/loader.hpp, and the first values
--     of the static members.
--   Daemon: daemon/daemon_impl.hpp. Start has the constructor, daemonize, set_pid_file and the
--     destructor, Reload reload_config, Monitor monitor_proc, with an abstract supervisor in
--     Monitor.Supervisor, Class the class of daemon/daemon.hpp as an interface with laws.
--   Master: daemon/master_impl.hpp. Services has slaves/include/service.hpp and the functions that make
--     and update the slaves, Work the constructor, set_fd_limit and work_proc, Reload reload_config,
--     Backtrace self_debug, Class the class of daemon/master.hpp and the process that monitor_proc runs it
--     in.
--   TcpServer: slaves/test. Config has the settings, Reply reply.cpp, Handler request_handler.cpp,
--     Connection connection.cpp, Server tcp_server.cpp, Client async_client.cpp, which no target builds,
--     Exchange a client and a connection together.
--   Program: main of server_main.cpp as a whole, over the interface of robot::daemon; Program.Main has it
--     for the class that server_main.cpp names, Program.Reload a signal on its way to the slaves,
--     Program.Terminate the signal that ends it, Program.Orphan a daemon that ends since fork fails,
--     Program.System a machine on which command lines and daemons run in any order and share the PID file:
--     its abstract lock is in Program.System.Lock, stop, restart and two commands at once in Stop, Restart,
--     Renew and Race, the theorems for robot::daemon in Daemons.
--
-- State is passed on explicitly. A system call takes its answer from the parameter Os, or, where a
-- program runs in rounds that the outside world drives, from the record of the round (Daemon.Monitor,
-- Daemon.Class, Master.Work, Master.Reload) or from the step (TcpServer.Connection and TcpServer.Exchange,
-- step relations). What happens in the world between two rounds of a running daemon is not described: a
-- theorem says which files it takes as unchanged. A message is a constructor with its arguments. The code
-- is modelled as it is built without TRACE; DEBUG is a parameter.
--
-- Bounds and fuel: unsigned long has 64 bits, int 32, uint16_t 16, each with its wrap-around written
-- out. Level.from_str takes ten rounds for the ten levels; Common.Decimal and Common.Hex print a number n
-- with fuel n + 1, more than it has digits; Handler reads a file of n bytes with fuel n + 1, since a chunk
-- that goes on takes a byte; Client reads the lines of a buffer of n bytes with fuel n + 1, since a line
-- takes a byte. The reader of replies, which is no code of the program, takes fuel for one line more than
-- there are headers.
--
-- Not modelled: include/spdlog, a copy of another library, but for the level names; slaves/periphery,
-- which is not built, and whose loop and template lack a condition and a type; include/messages.h, which
-- is empty, and the constant of include/system_messages.hpp, which no code uses; the texts of most
-- messages; the threads of the io_service, which are only counted; a failure of fprintf, fflush or fclose
-- behind an fopen that succeeds, which the program does not look at and which Os.write does not tell from
-- a success. A null pointer of get_current_dir_name or opendir ends the parser, as Exit.fault. Of spdlog,
-- the sink that cannot be made and the format with too few arguments throw, and both end a load as
-- Loaded.thrown.
pub mod Common
pub mod Definitions
pub mod Directories
pub mod Posix
pub mod Cli
pub mod Loader
pub mod TcpServer
pub mod Daemon
pub mod Program
pub mod Master
