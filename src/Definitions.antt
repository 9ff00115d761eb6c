-- ===== src/Definitions.antt =====
-- The constants of include/definitions.hpp, and the signal and error numbers of Linux that the
-- program names.
use robotd.Common.{ℕ}

-- How the 'Master' process asks its parent not to start it again.
abbrev pub child_need_terminate : ℕ
child_need_terminate = 2

abbrev pub child_need_work : ℕ
child_need_work = 3

abbrev pub fd_limit : ℕ
fd_limit = 2048

abbrev pub sighup : ℕ
sighup = 1

abbrev pub sigterm : ℕ
sigterm = 15

abbrev pub sigchld : ℕ
sigchld = 17

abbrev pub enoent : ℕ
enoent = 2

abbrev pub sigint : ℕ
sigint = 2

abbrev pub sigquit : ℕ
sigquit = 3

abbrev pub sigill : ℕ
sigill = 4

abbrev pub sigbus : ℕ
sigbus = 7

abbrev pub sigfpe : ℕ
sigfpe = 8

abbrev pub sigsegv : ℕ
sigsegv = 11
