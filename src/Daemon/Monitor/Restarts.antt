-- ===== src/Daemon/Monitor/Restarts.antt =====
-- The loop restarts the 'Master' process without limit, and never on SIGHUP.
use robotd.Common.{
  ℕ, zero, suc, ◌+◌, ◌≡◌, ◌≢◌, refl, true, false, some, List, [], ◌∷◌, arith, length,
}
use robotd.Definitions.{sighup, sigchld, child_need_terminate}
use robotd.Loader.State.{Loader}
use robotd.Loader.Config.{thrown}
use robotd.Daemon.Monitor.{
  in_parent, Event, spawned, waited, signalled, Monitor, Round, running, exit_code, start_child,
  wait_child, child_changed, forward, hang_up, handle, take_signal, dispatch, step, run,
}

-- How often a child was started.
abbrev pub starts : List Event → ℕ
starts [] = 0
starts (spawned p ∷ events) = 1 + starts events
starts (waited ∷ events) = starts events
starts (signalled p s ∷ events) = starts events

-- `n` times the signal SIGHUP for `p`.
abbrev pub hang_ups : ℕ → ℕ → List Event → List Event
hang_ups zero p events = events
hang_ups (suc n) p events = signalled p sighup ∷ hang_ups n p events

hang_ups_suc :
    (n p : ℕ) (events : List Event)
    → hang_ups n p (signalled p sighup ∷ events) ≡ signalled p sighup ∷ hang_ups n p events
hang_ups_suc zero p events = refl
hang_ups_suc (suc n) p events = rw (hang_ups_suc n p events)

module _ {S : Type 0} where
  -- A round in which the child `p` is started and ends, by `exit` or by a signal, without asking for the
  -- end of the monitor.
  pub record IsCrash (r : Round S) : Type 0 where
    pub child : ℕ
    pub started : r.fork ≡ in_parent child
    pub signal : r.sigwaitinfo ≡ some sigchld
    pub code : ℕ
    pub reaped : r.wait ≡ some code
    pub restarts : exit_code code ≢ child_need_terminate

  abbrev pub AllCrash : List (Round S) → Type 0
  AllCrash [] = Unit
  AllCrash (r ∷ rounds) = IsCrash r × AllCrash rounds

  pub step-crash :
      (r : Round S) (m : Monitor S) (c : IsCrash r)
      → m.need_start ≡ true
      → ((step r m).0 ≡ running)
        × ((step r m).1.need_start ≡ true)
        × ((step r m).1.events ≡ waited ∷ spawned c.child ∷ m.events)
  unfolding step start_child dispatch handle wait_child child_changed take_signal
  step-crash r m c e = ground (arith, c.started, c.signal, c.reaped, c.restarts)

  -- However many rounds there are in each of which fork succeeds, SIGCHLD comes and wait gives
  -- a code other than CHILD_NEED_TERMINATE, a loop that needs a child goes on and has started a
  -- new one in each.
  pub run-starts :
      (rounds : List (Round S)) (m : Monitor S)
      → AllCrash rounds
      → m.need_start ≡ true
      → ((run rounds m).0 ≡ running)
        × (starts (run rounds m).1.events ≡ starts m.events + length rounds)
  unfolding run
  run-starts [] m cs e = (refl, omega arith)
  run-starts (r ∷ rounds) m (c, cs) e =
      ground (arith, step-crash r m c e, run-starts rounds (step r m).1 cs)

  -- A round with SIGHUP in which reloading does not throw.
  pub record IsHangUp (r : Round S) : Type 0 where
    pub signal : r.sigwaitinfo ≡ some sighup
    pub reloads : (s : Loader S) → (r.reload_config s).0 ≢ thrown

  abbrev pub AllHangUp : List (Round S) → Type 0
  AllHangUp [] = Unit
  AllHangUp (r ∷ rounds) = IsHangUp r × AllHangUp rounds

  step-hang_up :
      (r : Round S) (m : Monitor S) (p : ℕ)
      → IsHangUp r
      → m.pid ≡ in_parent p
      → m.need_start ≡ false
      → ((step r m).0 ≡ running)
        × ((step r m).1.need_start ≡ false)
        × ((step r m).1.pid ≡ in_parent p)
        × ((step r m).1.events ≡ signalled p sighup ∷ m.events)
  unfolding step start_child dispatch handle hang_up forward take_signal
  step-hang_up r m p h e n = ground (arith, h.signal, h.reloads m.loader)

  -- With a child p and SIGHUP in every round, whether the reloads succeed or fail but as long
  -- as none throws, the loop goes on with the same child, which gets SIGHUP each time and
  -- nothing else.
  pub run-hang_ups :
      (rounds : List (Round S)) (m : Monitor S) (p : ℕ)
      → AllHangUp rounds
      → m.pid ≡ in_parent p
      → m.need_start ≡ false
      → ((run rounds m).0 ≡ running)
        × ((run rounds m).1.events ≡ hang_ups (length rounds) p m.events)
  unfolding run
  run-hang_ups [] m p hs e n = (refl, refl)
  run-hang_ups (r ∷ rounds) m p (h, hs) e n = ground (
    arith,
    step-hang_up r m p h e n,
    run-hang_ups rounds (step r m).1 p hs,
    hang_ups_suc (length rounds) p m.events,
  )
