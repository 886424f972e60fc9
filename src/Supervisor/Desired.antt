-- ===== src/Supervisor/Desired.antt =====
-- internal/supervisor/definitions.go: `PostDesired` and `FlushDesired`, which tell the server of a local
-- change.
--
-- The server's answer to a post is the argument `post`. The mutex is free while it is asked: what other
-- calls do then is the function `others`.
pub mod Pending
use ac_cli.Prelude.{
  false, ℕ, String, Bool, true, Option, none, some, List, [], ◌∷◌, ◌++◌, ◌==◌, if◌then◌else◌,
  lookup, insert, delete,
}
use ac_cli.Supervisor.Types.{attached, kind_eq, Definition}
use ac_cli.Supervisor.World.{Env, World}
use ac_cli.Supervisor.Lifecycle.{Outcome, not_exist, mark_revision}

-- A revision; an error with status 400, 404 or 409 (permanentDesiredError); any other error.
pub data Reply : Type 0 where
  revision : ℕ → Reply
  rejected unavailable : Reply

abbrev pub drop_pending : String → World → World
drop_pending name w = record w { pending_desired = delete name w.pending_desired }

abbrev pub add_pending : String → World → World
add_pending name w = record w { pending_desired = insert name true w.pending_desired }

-- `MarkRevision` after a post: whether it succeeded decides what becomes of the pending post.
unfoldable pub settle_post : Env → String → ℕ → World → Bool × World
settle_post env name number w =
    let (e, v) = mark_revision env name number w in
    elim e [ some f ↦ (false, v) | none ↦ (true, drop_pending name v) ]

abbrev post_reply : Env → String → Reply → World → World
post_reply env name rejected w = w
post_reply env name unavailable w = add_pending name w
post_reply env name (revision number) w =
    let (done, v) = settle_post env name number w in if done then v else add_pending name v

-- Manager.PostDesired
unfoldable pub post_desired :
    Env → (World → World) → Option (Definition → Reply) → String → World → Outcome × World
post_desired env others post name w = elim (lookup name w.agents) [
  | none ↦ (some not_exist, w)
  | some p ↦ if (w.objects p).def.kind == attached then (none, w) else elim post [
    | none ↦ (none, w)
    | some ask ↦ (none, post_reply env name (ask (w.objects p).def) (others w))
  ]
]

-- The agents to skip, and the world after the answer.
abbrev pub flush_reply : Env → String → String → Reply → World → List String × World
flush_reply env name id rejected w = ([], drop_pending name w)
flush_reply env name id unavailable w = (id ∷ [], w)
flush_reply env name id (revision number) w =
    let (done, v) = settle_post env name number w in (if done then [] else id ∷ [], v)

-- One round of the loop.
unfoldable pub flush_one :
    Env → (World → World) → Option (Definition → Reply) → String → World → List String × World
flush_one env others post name w = elim (lookup name w.agents) [
  | none ↦ ([], drop_pending name w)
  | some p ↦ if (w.objects p).def.kind == attached then ([], drop_pending name w) else elim post [
    | none ↦ ((w.objects p).def.agent_id ∷ [], w)
    | some ask ↦ flush_reply env name (w.objects p).def.agent_id (ask (w.objects p).def) (others w)
  ]
]

unfoldable pub flush_all :
    Env → (World → World) → Option (Definition → Reply) → List String → World → List String × World
flush_all env others post [] w = ([], w)
flush_all env others post (name ∷ names) w =
    let (skip, w') = flush_one env others post name w in
    let (more, w'') = flush_all env others post names w' in (skip ++ more, w'')

unfoldable pub names_of : List (String × Bool) → List String
names_of [] = []
names_of ((name, flag) ∷ rest) = name ∷ names_of rest

-- Manager.FlushDesired
unfoldable pub flush_desired :
    Env → (World → World) → Option (Definition → Reply) → World → List String × World
unfolding names_of
flush_desired env others post w = flush_all env others post (names_of w.pending_desired) w
