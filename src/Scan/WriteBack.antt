-- ===== src/Scan/WriteBack.antt =====
-- What the guard of source/scan/ScanEngine.cpp does last, for every plugin.
use plugin_lab.Prelude.{ℕ, suc}
use plugin_lab.Host.{Host}

module _ (h : Host) where
  -- From a plugin to a plugin: the parameters from one index up to another are set, in their order, to
  -- what `p` reports.
  pub data WritesBack (p : h.Plugin) : ℕ → ℕ → h.Plugin → h.Plugin → Type 0 where
    done : {n : ℕ} {q : h.Plugin} → WritesBack p n n q q
    sets :
        {i n : ℕ} {q last : h.Plugin}
        → WritesBack p (suc i) n (h.set_value q i (h.get_value p i)) last
        → WritesBack p i n q last
