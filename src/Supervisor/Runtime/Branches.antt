-- ===== src/Supervisor/Runtime/Branches.antt =====
-- What holds of the world that a branching call leaves.
use ac_cli.Prelude.{◌≡◌, refl, Bool, true, false, none, some, if◌then◌else◌}
use ac_cli.Supervisor.World.{World}
use ac_cli.Supervisor.Runtime.Outside.{Fault, Outcome}

-- What holds after either result of a branch.
pub either_way :
    (P : World → Type 0) (b : Bool) (x y : Outcome × World)
    → P x.1
    → P y.1
    → P (if b then x else y).1
either_way P true x y h k = h
either_way P false x y h k = k

-- The same, where each side knows the test.
pub either_case :
    (P : World → Type 0) (b : Bool) (x y : Outcome × World)
    → (b ≡ true → P x.1)
    → (b ≡ false → P y.1)
    → P (if b then x else y).1
either_case P true x y h k = h refl
either_case P false x y h k = k refl

pub after_fault :
    (P : World → Type 0) (e : Outcome) (x y : World) (r : Outcome × World)
    → P x
    → P r.1
    → (let result : Outcome × World = elim e [ some f ↦ (some f, x) | none ↦ r ] in P result.1)
after_fault P none x y r h k = k
after_fault P (some f) x y r h k = h

-- A result with or without a fault, in one world.
pub saved_or_not :
    (P : World → Type 0) (b : Bool) (f : Fault) (w : World)
    → P w
    → P (if b then (let r : Outcome × World = (none, w) in r) else (some f, w)).1
saved_or_not P true f w h = h
saved_or_not P false f w h = h
