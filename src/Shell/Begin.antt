-- ===== src/Shell/Begin.antt =====
-- How `tfsh` of TFS/EXAMPLES/TFSH/TFS_UTIL.C comes to its commands.
use ttm.Prelude.{ℕ, ◌≡◌, false, List, ℤ}
use ttm.Prelude.Run.{Run}
use ttm.Tfs.Library.{Library}
use ttm.Shell.{Session, Rest}
use ttm.Shell.Start.{Environment, commands}
use ttm.Shell.Prompt.{IsPrompted, Reach}

module _ {D : Type 0} (lib : Library D) (shell : Rest D) (environment : Environment) where
  -- The commands, over these arguments, begin in a session that the prompt is right for.
  abbrev pub Begins : D → Run (Session D) ℤ → Type 0
  Begins d begun =
      (rest : List (List ℕ)) × (s : Session D) × Reach lib shell environment d false s
      × IsPrompted s
      × (begun ≡ commands lib shell environment rest s)
