-- ===== src/Supervisor/Delivery/Kept.antt =====
-- A notification for a headless agent is sent or kept, and an interrupt is fetched three times at most.
use ac_cli.Prelude.{◌≡◌, ◌⊎◌, Bool, true, Option, some, List, [], ◌∷◌, ◌++◌, string_eq, nat_eq}
use ac_cli.Supervisor.Types.{desired_eq, Notification, Managed}
use ac_cli.Supervisor.World.{World}
use ac_cli.Supervisor.Delivery.{Outgoing}

-- A message was taken by the driver and is not kept, or it is kept as the newest wake.
abbrev pub SentOrKept :
    (Outgoing → Bool) → List Notification → Notification → Option Outgoing → Managed → Type 0
SentOrKept sent wakes n out a =
    ((message : Outgoing) × (out ≡ some message)
      × (sent message ≡ true)
      × (a.pending_wakes ≡ wakes))
    ⊎ (a.pending_wakes ≡ wakes ++ n ∷ [])
