-- ===== src/Loader/Config/Succeeds.antt =====
-- A load returns 0 only on a section that is accepted.
use robotd.Common.{
  ◌≡◌, ◌↔◌, sym, ap, ◌∙◌, inl, inr, Bytes, codes, pos, none, some, List, ◌∷◌, arith, Option-cases,
}
use robotd.Loader.Settings.{Section, Root, Env, parsed, parsed-cases}
use robotd.Loader.State.{Loader, next, next-bind, next-then}
use robotd.Loader.Config.{
  given_level, returned, to_loaded, SlaveLoader, max_threads, slave_count, load_thread_count,
  load_log_name, load_level, load_log_size, load_ram_size, load_slaves, load_slave_config,
  load_section, load_root, load_file, daemon_load_config,
}
use robotd.Loader.Config.Result.{
  Accepted, load_thread_count-next, load_log_name-next, load_level-next, load_log_size-next,
  load_ram_size-next, after_section, load_root-next, daemon_load_config-Accepted,
}
use robotd.Loader.Config.Failure.{load_section-Refused}
use robotd.Loader.Config.Accepts.{
  next-load_thread_count, next-load_log_name, next-load_level, next-load_log_size,
  next-load_ram_size, next-announce,
}

module _ {S : Type 0} where
  module _ (env : Env) (tag : Bytes) (first : SlaveLoader S) (rest : List (SlaveLoader S)) where
    -- A section that does not stop the load is accepted.
    next-load_section :
        (section : Section) (s : Loader S)
        → (load_section env tag first rest section s).0 ≡ next tt
        → Accepted env (slave_count rest) section s
    unfolding load_section
    next-load_section section s h =
        let max = max_threads env.hardware (slave_count rest) in
        let (u, e, _) = next-bind (load_thread_count max section) _ s tt h in
        let (n, given, fits) = next-load_thread_count max section s u e in
        let s1 : Loader S = record s { thread_count = n } in
        let h1 =
          next-then (load_thread_count max section) _ s s1 tt tt
            (load_thread_count-next max section s n given fits) h in
        let (x, e1, _) = next-bind (load_log_name env.can_append section) _ s1 tt h1 in
        let (c, name, given_name, opens) = next-load_log_name env.can_append section s1 x e1 in
        let h2 =
          next-then (load_log_name env.can_append section) _ s1 s1 (c ∷ name) tt
            (load_log_name-next env.can_append section s1 c name given_name opens) h1 in
        let (y, e2, _) = next-bind (load_level section) _ s1 tt h2 in
        let (default, level, stands, named) = next-load_level section s1 y e2 in
        let s2 : Loader S = record s1 { lev = level } in
        let h3 =
          next-then (load_level section) _ s1 s2 _ tt
            (load_level-next section s1 default level stands named) h2 in
        let (z, e3, _) = next-bind (load_log_size section) _ s2 tt h3 in
        let (size, size_read) = next-load_log_size section s2 z e3 in
        let h4 =
          next-then (load_log_size section) _ s2 s2 size tt
            (load_log_size-next section s2 size size_read) h3 in
        let (t, e4, _) = next-bind (load_ram_size section) _ s2 tt h4 in
        let (ram, ram_read) = next-load_ram_size section s2 t e4 in
        let s3 : Loader S = record s2 { ramsize = ram } in
        let h5 =
          next-then (load_ram_size section) _ s2 s3 _ tt
            (load_ram_size-next section s2 ram ram_read) h4 in
        record {
          threads = n;
          threads_given = given;
          threads_fit = fits;
          letter = c;
          letters = name;
          name_given = given_name;
          name_opens = opens;
          sink_opens = next-announce env.can_sink tag (c ∷ name) _ _ size s3 h5;
          default = default;
          default_stands = stands;
          level = level;
          level_named = named;
          size = size;
          size_read = size_read;
          ram = ram;
          ram_read = ram_read;
        }

    -- What a load that returns 0 needs.
    pub record Succeeds (filename : Bytes) (s : Loader S) : Type 0 where
      pub root : Root
      pub parses : env.read_config filename ≡ parsed root
      pub section : Section
      pub found : root (codes "Daemon") ≡ some section
      pub accepted : Accepted env (slave_count rest) section s
      pub slaves_load :
          (load_slave_config first rest root accepted.level s.log_to_file s.slaves).0
          ≡ returned (pos 0)

    load_root-load_section :
        (root : Root) (section : Section) (s : Loader S)
        → root (codes "Daemon") ≡ some section
        → to_loaded (load_root env tag first rest root s).0 ≡ returned (pos 0)
        → (load_section env tag first rest section s).0 ≡ next tt
    unfolding load_root
    load_root-load_section root section s e h =
        ground (arith, e, load_section-Refused env tag first rest section s)

    load_slaves-load_slave_config :
        (root : Root) (s : Loader S)
        → to_loaded (load_slaves first rest root s).0 ≡ returned (pos 0)
        → (load_slave_config first rest root (given_level s) s.log_to_file s.slaves).0
          ≡ returned (pos 0)
    unfolding load_slaves
    load_slaves-load_slave_config root s h = ground arith

    load_root_missing :
        (root : Root) (s : Loader S)
        → root (codes "Daemon") ≡ none
        → ¬ (to_loaded (load_root env tag first rest root s).0 ≡ returned (pos 0))
    unfolding load_root
    load_root_missing root s missing h = ground (arith, missing)

    load_root-Succeeds :
        (filename : Bytes) (root : Root) (s : Loader S)
        → env.read_config filename ≡ parsed root
        → to_loaded (load_root env tag first rest root s).0 ≡ returned (pos 0)
        → Succeeds filename s
    load_root-Succeeds filename root s e h = elim (Option-cases (root (codes "Daemon"))) [
      | inl missing ↦ absurd (load_root_missing root s missing h)
      | inr (section, found) ↦
          let a = next-load_section section s (load_root-load_section root section s found h) in
          record {
            root = root;
            parses = e;
            section = section;
            found = found;
            accepted = a;
            slaves_load = load_slaves-load_slave_config root (after_section tag section s a) (
                ap (λ r. to_loaded r.0)
                  (sym (load_root-next env tag first rest root section s a found))
                ∙ h);
          }
    ]

    daemon_load_config-Succeeds :
        (filename : Bytes) (s : Loader S)
        → (daemon_load_config env tag first rest filename s).0 ≡ returned (pos 0)
        → Succeeds filename s
    unfolding daemon_load_config load_file
    daemon_load_config-Succeeds filename s h = elim (parsed-cases (env.read_config filename)) [
      | inl e ↦ absurd (ground (arith, e))
      | inr (inl e) ↦ absurd (ground (arith, e))
      | inr (inr (root, e)) ↦ load_root-Succeeds filename root s e (ground (arith, e))
    ]

    -- A load returns 0 exactly when the file can be read and parsed, has a section Daemon that
    -- is accepted in the state of the loader (the thread count fits, the log file opens, the
    -- level, taken from the logger or info if none is given, has a name, both sizes are read,
    -- and the sink on the log file can be made), and the slaves, from the state that they had
    -- and with a logger at that level, return 0.
    pub daemon_load_config_iff :
        (filename : Bytes) (s : Loader S)
        → ((daemon_load_config env tag first rest filename s).0 ≡ returned (pos 0))
          ↔ Succeeds filename s
    daemon_load_config_iff filename s = (
      daemon_load_config-Succeeds filename s,
      λ h.
          ap (λ r. r.0)
            (daemon_load_config-Accepted env tag first rest filename h.root h.section s (pos 0)
              h.parses h.found h.accepted h.slaves_load),
    )
