-- ===== src/TcpServer/Server.antt =====
-- The constructor of slaves/test/tcp_server.cpp, and its loop of accepts.
pub mod Accepts
use robotd.Common.{ℕ, suc, Bool, true, false, Option, none, some, List, [], ◌∷◌, if◌then◌else◌}
use robotd.Definitions.{child_need_terminate, child_need_work}

-- What the calls of the constructor answer: whether `resolve`, `set_option` and `listen` succeed, which
-- throw if they do not, and the error codes of `open` and `bind`.
pub record Calls : Type 0 where
  pub resolve : Bool
  pub opening : Option ℕ
  pub set_option : Bool
  pub bind : Option ℕ
  pub listen : Bool

pub data Ended : Type 0 where
  listening throws : Ended
  exits : ℕ → Ended

-- With DEBUG the process asks not to be started again.
abbrev pub give_up : Bool → Ended
give_up debug = if debug then exits child_need_terminate else exits child_need_work

abbrev bind_and_listen : Bool → Calls → Ended
bind_and_listen debug a = elim a.bind [
  | some e ↦ give_up debug
  | none ↦ if a.listen then listening else throws
]

unfoldable pub tcp_server : Bool → Calls → Ended
tcp_server debug a =
    if a.resolve
    then elim a.opening [
      | some e ↦ give_up debug
      | none ↦ if a.set_option then bind_and_listen debug a else throws
    ]
    else throws

-- The connections are numbered in the order in which they are made: how many there are,
-- `new_connection_`, the connection that the pending accept will fill, and those that were started.
pub record Server : Type 0 where
  pub connections : ℕ
  pub new_connection : Option ℕ
  pub accepting : Option ℕ
  pub started : List ℕ

-- The constructor makes a first connection, which `run` replaces.
abbrev pub initial : Server
initial = record { connections = 1; new_connection = some 0; accepting = none; started = [] }

unfoldable pub start_accept : Server → Server
start_accept s = record s {
  connections = suc s.connections;
  new_connection = some s.connections;
  accepting = some s.connections;
}

abbrev pub run : Server → Server
run s = start_accept s

abbrev start_new : Option ℕ → Server → Server
start_new none s = s
start_new (some k) s = record s { started = k ∷ s.started }

unfoldable pub handle_accept : Bool → Server → Server
handle_accept failed s =
    if failed then start_accept s else start_accept (start_new s.new_connection s)

-- The accepts that complete, one after the other: whether each failed.
unfoldable pub accept_all : List Bool → Server → Server
accept_all [] s = s
accept_all (failed ∷ rest) s = accept_all rest (handle_accept failed s)
