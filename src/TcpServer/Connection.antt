-- ===== src/TcpServer/Connection.antt =====
-- slaves/test/connection.hpp and slaves/test/connection.cpp: one connection, from `start` to the last
-- handler. The strand lets one handler run at a time.
pub mod Life
use robotd.Common.{
  ℕ, suc, Bytes, Bool, true, false, Option, none, some, List, [], ◌∷◌, ◌++◌, ◌≡◌, if◌then◌else◌,
}
use robotd.TcpServer.Reply.{Status, ok, bad_request, Reply, stock_reply, to_buffers}
use robotd.TcpServer.Handler.{handle_request}

-- `boost::tribool`
pub data Tribool : Type 0 where
  no yes undefined : Tribool

-- The asynchronous operation that was started and has not completed.
pub data Pending : Type 0 where
  nothing reading writing : Pending

pub record Connection : Type 0 where
  pub reply : Reply
  pub pending : Pending
  -- the buffers that `async_write` was given
  pub writes : List (List Bytes)
  pub shut_down : Bool

-- `start`, with the reply of the constructor, whose status is not set.
abbrev pub start : Status → Connection
start status = record {
  reply = record { status = status; headers = []; content = [] };
  pending = reading;
  writes = [];
  shut_down = false;
}

abbrev write : Reply → Connection → Connection
write r c = record c { reply = r; pending = writing; writes = c.writes ++ to_buffers r ∷ [] }

-- The call of the parser is commented out: the result is the first value of a tribool.
abbrev pub parsed : Tribool
parsed = no

unfoldable pub handle_write : Bool → Connection → Connection
handle_write failed c =
    if failed
    then record c { pending = nothing }
    else record c { pending = nothing; shut_down = true }

module _ (open_file : Bytes → Option Bytes) where
  -- The three branches on the result of the parser.
  unfoldable pub respond : Tribool → Connection → Connection
  respond yes c = write (handle_request open_file c.reply) c
  respond no c = write (stock_reply bad_request) c
  respond undefined c = record c { pending = reading }

  unfoldable pub handle_read : Bool → Connection → Connection
  handle_read failed c = if failed then record c { pending = nothing } else respond parsed c

  -- The handler of the operation that completes.
  pub data Step : Connection → Connection → Type 0 where
    read_done :
        (failed : Bool) (c : Connection) → c.pending ≡ reading → Step c (handle_read failed c)
    write_done :
        (failed : Bool) (c : Connection) → c.pending ≡ writing → Step c (handle_write failed c)

  -- A connection after `n` handlers.
  pub data Reachable : ℕ → Connection → Type 0 where
    started : (status : Status) → Reachable 0 (start status)
    handled : {n : ℕ} {c d : Connection} → Reachable n c → Step c d → Reachable (suc n) d
