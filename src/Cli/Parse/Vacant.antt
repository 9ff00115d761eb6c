-- ===== src/Cli/Parse/Vacant.antt =====
-- When a command line without a PID file makes `main` go on as the daemon.
use robotd.Common.{
  ℕ, ◌≡◌, ◌↔◌, ◌⊎◌, refl, inl, inr, Bytes, pos, true, false, none, some, List, [], ◌∷◌, arith,
  str_eq, str_eq_sound, Bool-cases,
}
use robotd.Directories.{pid_file}
use robotd.Posix.{Os, refused}
use robotd.Cli.State.{Process}
use robotd.Cli.Options.{option_key}
use robotd.Cli.Load.{Exit, ret, option_load}
use robotd.Cli.Parse.{Value, run_daemon, no_daemon_process, run_option, parse_options, main, decide}
use robotd.Cli.Parse.Stopped.{run_option-vacant}

-- load, reload and restart.
abbrev pub IsStart : Bytes → Type 0
IsStart arg = (arg ≡ option_key 0) ⊎ (arg ≡ option_key 1) ⊎ (arg ≡ option_key 2)

-- The arguments behind the option.
abbrev pub given : Value → List Bytes
given none = []
given (some file) = file ∷ []

module _ (os : Os) where
  -- The state in which the configuration is looked for.
  abbrev pub asked : Value → Process os → Process os
  asked none s = s
  asked (some file) s = record s { config_file = file }

  abbrev Goes : Exit × Process os → Bytes → Type 0
  Goes (e, t) path = (e ≡ ret (pos 0)) × (t.config_file ≡ path)

  decide_iff :
      (e : Exit) (t : Process os) (path : Bytes)
      → (decide os e t ≡ run_daemon path) ↔ ((e ≡ ret (pos 0)) × (t.config_file ≡ path))
  unfolding decide
  decide_iff e t path = ground arith

  no_daemon_process-start :
      (arg : Bytes) (value : Value) (s : Process os)
      → IsStart arg
      → no_daemon_process os arg value s ≡ option_load os (asked value s)
  unfolding no_daemon_process str_eq
  no_daemon_process-start arg none s (inl e) = rw e refl
  no_daemon_process-start arg none s (inr (inl e)) = rw e refl
  no_daemon_process-start arg none s (inr (inr e)) = rw e refl
  no_daemon_process-start arg (some file) s (inl e) = rw e refl
  no_daemon_process-start arg (some file) s (inr (inl e)) = rw e refl
  no_daemon_process-start arg (some file) s (inr (inr e)) = rw e refl

  no_daemon_process-stays :
      (arg : Bytes) (value : Value) (s : Process os)
      → str_eq arg (option_key 0) ≡ false
      → str_eq arg (option_key 1) ≡ false
      → str_eq arg (option_key 2) ≡ false
      → ¬ ((no_daemon_process os arg value s).0 ≡ ret (pos 0))
  unfolding no_daemon_process
  no_daemon_process-stays arg value s a b c h = ground (arith, a, b, c)

  is_start :
      (arg : Bytes) (value : Value) (s : Process os)
      → (no_daemon_process os arg value s).0 ≡ ret (pos 0)
      → IsStart arg
  is_start arg value s h = elim (Bool-cases (str_eq arg (option_key 0))) [
    | inl a ↦ inl (str_eq_sound arg (option_key 0) a)
    | inr a ↦ elim (Bool-cases (str_eq arg (option_key 1))) [
      | inl b ↦ inr (inl (str_eq_sound arg (option_key 1) b))
      | inr b ↦ elim (Bool-cases (str_eq arg (option_key 2))) [
        | inl c ↦ inr (inr (str_eq_sound arg (option_key 2) c))
        | inr c ↦ absurd (no_daemon_process-stays arg value s a b c h)
      ]
    ]
  ]

  help_stays :
      (arg : Bytes) (value : Value) (s : Process os)
      → str_eq arg (option_key 5) ≡ true
      → ¬ ((run_option os arg value s).0 ≡ ret (pos 0))
  unfolding run_option
  help_stays arg value s e h = ground (arith, e)

  start-ne_help : (arg : Bytes) → IsStart arg → str_eq arg (option_key 5) ≡ false
  unfolding str_eq
  start-ne_help arg (inl e) = rw e refl
  start-ne_help arg (inr (inl e)) = rw e refl
  start-ne_help arg (inr (inr e)) = rw e refl

  main-given :
      (program arg : Bytes) (value : Value) (s : Process os)
      → (main os (program ∷ arg ∷ given value) s).0
        ≡ decide os (run_option os arg value s).0 (run_option os arg value s).1
  unfolding main parse_options
  main-given program arg none s = refl
  main-given program arg (some file) s = refl

  module _ (s : Process os) (e : ℕ) (vacant : os.read s.world pid_file ≡ refused e) where
    abbrev pub found_none : Process os
    found_none = record s { errno = e }

    run_option_iff :
        (arg : Bytes) (value : Value) (path : Bytes)
        → Goes (run_option os arg value s) path
          ↔ (IsStart arg × Goes (option_load os (asked value found_none)) path)
    run_option_iff arg value path = (
      λ h. elim (Bool-cases (str_eq arg (option_key 5))) [
        | inl help ↦ absurd (help_stays arg value s help h.0)
        | inr other ↦
            let g = rw (run_option-vacant os s e vacant arg value other) at h in
            let start = is_start arg value found_none g.0 in
            (start, rw (no_daemon_process-start arg value found_none start) at g)
      ],
      λ h.
          rw (run_option-vacant os s e vacant arg value (start-ne_help arg h.0))
            (rw (no_daemon_process-start arg value found_none h.0) h.1),
    )

    -- Without a PID file that can be opened, a command line of an option and at most a file
    -- name makes main go on as the daemon for a path exactly when the option is load, reload or
    -- restart, option_load, for the given file name or else the CONFIG_FILE there is, returns
    -- 0, and it leaves that path in CONFIG_FILE.
    pub main_vacant_iff :
        (program arg : Bytes) (value : Value) (path : Bytes)
        → ((main os (program ∷ arg ∷ given value) s).0 ≡ run_daemon path) ↔ (
            IsStart arg
            × ((option_load os (asked value found_none)).0 ≡ ret (pos 0))
            × ((option_load os (asked value found_none)).1.config_file ≡ path))
    main_vacant_iff program arg value path =
        let (r, t) = run_option os arg value s in
        let d = decide_iff r t path in
        let o = run_option_iff arg value path in
        rw (main-given program arg value s)
          ((λ h. let g = o.0 (d.0 h) in (g.0, g.1.0, g.1.1)), λ h. d.1 (o.1 (h.0, (h.1, h.2))))
