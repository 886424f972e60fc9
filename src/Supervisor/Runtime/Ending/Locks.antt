-- ===== src/Supervisor/Runtime/Ending/Locks.antt =====
-- After a shutdown the agents' locks are free.
use ac_cli.Prelude.{ℕ, String, ◌≡◌, false, List, nat_eq, All}
use ac_cli.Supervisor.Types.{kind_eq, mode_eq}
use ac_cli.Supervisor.World.{World}
use ac_cli.Supervisor.Runtime.Outside.{Outside}

-- No lock is taken: an agent whose lock is free in `w` has it free in `v`.
abbrev pub NoneTaken : World → World → Type 0
NoneTaken w v = (q : ℕ) → (w.objects q).locked ≡ false → (v.objects q).locked ≡ false

-- The other calls that fall into the windows take no lock.
abbrev pub IsQuiet : (ℕ → Outside) → Type 0
IsQuiet outside = (p : ℕ) (u : World) → NoneTaken u ((outside p).stopping.others u)

-- No agent of the list has its lock taken, and what was free before is free.
abbrev pub AllFree : World → List (String × ℕ) → World → Type 0
AllFree w entries v =
    All (λ (entry : String × ℕ). (v.objects entry.1).locked ≡ false) entries × NoneTaken w v
