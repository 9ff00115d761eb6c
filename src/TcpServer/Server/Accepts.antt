-- ===== src/TcpServer/Server/Accepts.antt =====
-- The server always waits for a next connection, and starts no connection twice.
use robotd.Common.{
  ℕ, suc, ◌+◌, ◌<◌, ◌≡◌, refl, Bool, true, false, some, List, [], ◌∷◌, arith, length,
}
use robotd.TcpServer.Server.{
  Server, initial, start_accept, run, start_new, handle_accept, accept_all,
}

-- The numbers fall, so that they are all different.
abbrev pub Falling : ℕ → List ℕ → Type 0
Falling bound [] = Unit
Falling bound (k ∷ ks) = (k < bound) × Falling k ks

-- Accepts that succeeded.
abbrev pub successes : List Bool → ℕ
successes [] = 0
successes (false ∷ rest) = suc (successes rest)
successes (true ∷ rest) = successes rest

-- An accept is pending for the newest connection, which was not started.
pub record IsAccepting (s : Server) : Type 0 where
  pub next : ℕ
  pub waiting : s.accepting ≡ some next
  pub newest : s.new_connection ≡ some next
  pub last : s.connections ≡ suc next
  pub fresh : Falling next s.started

Falling-suc : (k : ℕ) (ks : List ℕ) → Falling k ks → Falling (suc k) ks
Falling-suc k [] h = tt
Falling-suc k (j ∷ ks) (l, h) = (omega (arith, l), h)

start_accept-IsAccepting :
    (s : Server) → Falling s.connections s.started → IsAccepting (start_accept s)
unfolding start_accept
start_accept-IsAccepting s h = record {
  next = s.connections;
  waiting = refl;
  newest = refl;
  last = refl;
  fresh = h;
}

handle_accept-IsAccepting :
    (failed : Bool) (s : Server) → IsAccepting s → IsAccepting (handle_accept failed s)
unfolding handle_accept start_accept
handle_accept-IsAccepting true s a =
    start_accept-IsAccepting s (rw (a.last) (Falling-suc a.next s.started a.fresh))
handle_accept-IsAccepting false s a =
    rw a.newest
      (start_accept-IsAccepting (start_new (some a.next) s) (rw a.last (omega arith, a.fresh)))

handle_accept-started :
    (failed : Bool) (s : Server)
    → IsAccepting s
    → length (handle_accept failed s).started ≡ successes (failed ∷ []) + length s.started
unfolding handle_accept start_accept
handle_accept-started true s a = omega arith
handle_accept-started false s a = rw a.newest (omega arith)

accept_all-IsAccepting :
    (fs : List Bool) (s : Server) → IsAccepting s → IsAccepting (accept_all fs s)
unfolding accept_all
accept_all-IsAccepting [] s a = a
accept_all-IsAccepting (f ∷ fs) s a =
    accept_all-IsAccepting fs (handle_accept f s) (handle_accept-IsAccepting f s a)

accept_all-started :
    (fs : List Bool) (s : Server)
    → IsAccepting s
    → length (accept_all fs s).started ≡ successes fs + length s.started
unfolding accept_all
accept_all-started [] s a = omega arith
accept_all-started (true ∷ fs) s a = omega (
  arith,
  accept_all-started fs (handle_accept true s) (handle_accept-IsAccepting true s a),
  handle_accept-started true s a,
)
accept_all-started (false ∷ fs) s a = omega (
  arith,
  accept_all-started fs (handle_accept false s) (handle_accept-IsAccepting false s a),
  handle_accept-started false s a,
)

-- Once the server runs, and whichever accepts fail, an accept is pending for the newest
-- connection, which was not started, no connection was started twice, and as many were started
-- as accepts succeeded.
pub accept_all-run :
    (fs : List Bool)
    → IsAccepting (accept_all fs (run initial))
      × (length (accept_all fs (run initial)).started ≡ successes fs)
unfolding start_accept
accept_all-run fs =
    let a = start_accept-IsAccepting initial tt in
    (
      accept_all-IsAccepting fs (run initial) a,
      omega (arith, accept_all-started fs (run initial) a),
    )
