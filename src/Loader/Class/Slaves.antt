-- ===== src/Loader/Class/Slaves.antt =====
-- What the slave classes keep in their static members survives the loads of the daemon.
use robotd.Common.{refl, Bytes, codes, Bool, List, [], ◌∷◌, inl, inr, arith, All, Option-cases}
use robotd.Loader.Level.{Level}
use robotd.Loader.Settings.{Root, Env, parsed-cases}
use robotd.Loader.State.{Loader}
use robotd.Loader.Config.{
  given_level, SlaveLoader, load_slave_config, load_section, load_slaves, load_root, load_file,
  daemon_load_config,
}
use robotd.Loader.Class.{LoaderClass, loader}
use robotd.Loader.Class.Frame.{Same, load_section-Same}
use robotd.Loader.Class.History.{loads}

module _ {S : Type 0} (P : S → Type 0) where
  -- A `load_config` that keeps `P`, whether it succeeds or not.
  pub record KeepsSlave (l : SlaveLoader S) : Type 0 where
    pub kept :
        (root : Root) (level : Level) (to_file : Bool) (s : S) → P s → P (l root level to_file s).1

  load_slave_config-KeepsSlave :
      (root : Root) (level : Level) (to_file : Bool) (first : SlaveLoader S)
      (rest : List (SlaveLoader S)) (s : S)
      → All KeepsSlave (first ∷ rest)
      → P s
      → P (load_slave_config first rest root level to_file s).1
  unfolding load_slave_config
  load_slave_config-KeepsSlave root level to_file first [] s (h, k) p =
      h.kept root level to_file s p
  load_slave_config-KeepsSlave root level to_file first (second ∷ rest) s (h, k) p =
      let q = h.kept root level to_file s p in
      ground (
        arith,
        q,
        load_slave_config-KeepsSlave root level to_file second rest (first root level to_file s).1 k
            q,
      )

  load_slaves-KeepsSlave :
      (first : SlaveLoader S) (rest : List (SlaveLoader S)) (root : Root) (s : Loader S)
      → All KeepsSlave (first ∷ rest)
      → P s.slaves
      → P (load_slaves first rest root s).1.slaves
  unfolding load_slaves
  load_slaves-KeepsSlave first rest root s h p =
      let q =
        load_slave_config-KeepsSlave root (given_level s) s.log_to_file first rest s.slaves h p in
      ground (arith, q)

  module _ (env : Env) (tag : Bytes) (first : SlaveLoader S) (rest : List (SlaveLoader S))
      (h : All KeepsSlave (first ∷ rest)) where
    same_kept : (b : Bool) (s t : Loader S) → P s.slaves → Same b s.slaves t → P t.slaves
    same_kept b s t p same = rw same.same_slaves p

    load_root-KeepsSlave :
        (root : Root) (s : Loader S) → P s.slaves → P (load_root env tag first rest root s).1.slaves
    unfolding load_root
    load_root-KeepsSlave root s p = elim (Option-cases (root (codes "Daemon"))) [
      | inl e ↦ ground (arith, p)
      | inr (section, e) ↦
          let (r, t) = load_section env tag first rest section s in
          let q = same_kept s.log_to_file s t p (
            (load_section-Same s.log_to_file s.slaves env tag first rest section).kept s
              (record { same_file = refl; same_slaves = refl })) in
          ground (arith, q, load_slaves-KeepsSlave first rest root t h q)
    ]

    daemon_load_config-KeepsSlave :
        (filename : Bytes) (s : Loader S)
        → P s.slaves
        → P (daemon_load_config env tag first rest filename s).1.slaves
    unfolding daemon_load_config load_file
    daemon_load_config-KeepsSlave filename s p = elim (parsed-cases (env.read_config filename)) [
      | inl e ↦ ground (arith, p)
      | inr (inl e) ↦ ground (arith, p)
      | inr (inr (root, e)) ↦ ground (arith, load_root-KeepsSlave root s p)
    ]

  pub loads-KeepsSlave :
      (tag : Bytes) (first : SlaveLoader S) (rest : List (SlaveLoader S))
      (history : List (Env × Bytes)) (s : Loader S)
      → All KeepsSlave (first ∷ rest)
      → P s.slaves
      → P (loads tag first rest history s).slaves
  unfolding loads
  loads-KeepsSlave tag first rest [] s h p = p
  loads-KeepsSlave tag first rest ((env, filename) ∷ later) s h p =
      let c : LoaderClass S = loader env tag in
      loads-KeepsSlave tag first rest later (c.daemon_load_config first rest filename s).1 h
        (daemon_load_config-KeepsSlave env tag first rest h filename s p)
