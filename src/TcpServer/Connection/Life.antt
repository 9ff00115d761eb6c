-- ===== src/TcpServer/Connection/Life.antt =====
-- Whatever a client sends, a connection answers once at most, and always with "Bad Request".
use robotd.Common.{ℕ, suc, ◌≤◌, ◌≡◌, refl, Bytes, Bool, false, Option, List, [], ◌∷◌, arith, ◌⊎◌}
use robotd.TcpServer.Reply.{bad_request, stock_reply, to_buffers}
use robotd.TcpServer.Connection.{
  Pending, nothing, reading, writing, Connection, respond, handle_read, handle_write, Step,
  read_done, write_done, Reachable, started, handled,
}

abbrev pub refusal : List Bytes
refusal = to_buffers (stock_reply bad_request)

-- What holds after `n` handlers, by what is pending.
abbrev PhaseOf : ℕ → Pending → List (List Bytes) → Bool → Type 0
PhaseOf n reading writes shut = (n ≡ 0) × (writes ≡ []) × (shut ≡ false)
PhaseOf n writing writes shut = (n ≡ 1) × (writes ≡ refusal ∷ []) × (shut ≡ false)
PhaseOf n nothing writes shut =
    (n ≤ 2) × (((writes ≡ []) × (shut ≡ false)) ⊎ (writes ≡ refusal ∷ []))

module _ (open_file : Bytes → Option Bytes) where
  abbrev Phase : ℕ → Connection → Type 0
  Phase n c = PhaseOf n c.pending c.writes c.shut_down

  read-Phase :
      (failed : Bool) (n : ℕ) (c : Connection)
      → c.pending ≡ reading
      → Phase n c
      → Phase (suc n) (handle_read open_file failed c)
  unfolding handle_read respond
  read-Phase failed n c e p = ground arith

  write-Phase :
      (failed : Bool) (n : ℕ) (c : Connection)
      → c.pending ≡ writing
      → Phase n c
      → Phase (suc n) (handle_write failed c)
  unfolding handle_write
  write-Phase failed n c e p = ground arith

  next_Phase : (n : ℕ) {c d : Connection} → Phase n c → Step open_file c d → Phase (suc n) d
  next_Phase n p (read_done failed c e) = read-Phase failed n c e p
  next_Phase n p (write_done failed c e) = write-Phase failed n c e p

  reachable-Phase : {n : ℕ} {c : Connection} → Reachable open_file n c → Phase n c
  reachable-Phase (started status) = (refl, refl, refl)
  reachable-Phase (handled r s) = next_Phase _ (reachable-Phase r) s

  -- Whatever a client sends and whichever operations fail, at most two handlers of a connection
  -- run, and it writes nothing or, once, the stock reply 400.
  pub reachable-writes :
      {n : ℕ} {c : Connection}
      → Reachable open_file n c
      → (n ≤ 2) × ((c.writes ≡ []) ⊎ (c.writes ≡ refusal ∷ []))
  reachable-writes {n} {c} r = ground (arith, reachable-Phase r)
