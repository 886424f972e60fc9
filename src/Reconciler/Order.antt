-- ===== src/Reconciler/Order.antt =====
-- In which order a check makes its calls.
pub mod Run
use ac_cli.Prelude.{
  ℕ, String, ◌≡◌, refl, ap, Bool, true, false, Option, none, some, List, [], ◌∷◌, arith, ◌==◌, ◌!=◌,
  not, ◌||◌, ltb, leb, if◌then◌else◌, string_eq, nat_eq, lookup, inl, inr, Bool-cases, Option-cases,
  is_none,
}
use ac_cli.Supervisor.Types.{Definition, Desired, desired_eq, mode_eq, desired_beq_iff}
use ac_cli.Reconciler.Types.{
  Agent, Fault, Call, flush, read_definitions, send_seed, prepare, join, stage, start, stop,
  set_mode, report, mark, History, Outside, Check,
}
use ac_cli.Reconciler.Apply.{
  must_stop, has_moved, moving, call, ◌>>◌, Step, definition, target_fault, apply_new, is_settled,
  stop_first, change_mode, start_again, apply_change, apply,
}
use ac_cli.Reconciler.Seeding.{seed_one, seed_all, request_seed}
use ac_cli.Reconciler.Check.{
  noted, refused, accepted, is_deferred, attempt, check_revision, check_target, check_targets,
  check_remote, check_local, reconcile,
}

-- The newest call of `h` is `c`, and it succeeded.
abbrev pub Done : Outside → Call → History → Type 0
Done out c h = (rest : History) × (h ≡ c ∷ rest) × (out.fails h ≡ none)

-- What a call wants of the call before it.
abbrev pub Follows : Outside → Call → History → Type 0
Follows out (start d) h = (t : Agent) × Done out (join t) h × (definition t ≡ d)
Follows out (stage d) h =
    (t : Agent) × Done out (prepare t) h × (definition t ≡ d) × (t.desired ≡ Desired.stopped)
Follows out (mark name revision) h = (id : String) × Done out (report id revision true "") h
Follows out _ h = Unit {0}

abbrev pub IsOrdered : Outside → History → Type 0
IsOrdered out [] = Unit {0}
IsOrdered out (c ∷ h) = Follows out c h × IsOrdered out h

then-IsOrdered :
    (out : Outside) (m : Step) (k : History → Step)
    → IsOrdered out m.1
    → ((h : History) → IsOrdered out h → IsOrdered out (k h).1)
    → IsOrdered out (m >> k).1
then-IsOrdered out (none, h) k o next = next h o
then-IsOrdered out (some f, h) k o next = o

if_IsOrdered :
    (out : Outside) (b : Bool) (m n : Step)
    → IsOrdered out m.1
    → IsOrdered out n.1
    → IsOrdered out (if b then m else n).1
if_IsOrdered out true m n o o' = o
if_IsOrdered out false m n o o' = o'

join_start :
    (out : Outside) (t : Agent) (h : History)
    → IsOrdered out h
    → IsOrdered out (call out (join t) h >> call out (start (definition t))).1
join_start out t h o = elim (Option-cases (out.fails (join t ∷ h))) [
  | inl good ↦ rw good ((t, (h, refl, good), refl), (tt, o))
  | inr (f, bad) ↦ rw bad (tt, o)
]

prepared_stage :
    (out : Outside) (t : Agent) (h : History)
    → t.desired ≡ Desired.stopped
    → out.fails (prepare t ∷ h) ≡ none
    → IsOrdered out h
    → IsOrdered out (call out (stage (definition t)) (prepare t ∷ h)).1
prepared_stage out t h e good o = ((t, (h, refl, good), refl, e), (tt, o))

apply_new-IsOrdered :
    (out : Outside) (t : Agent) (h : History)
    → IsOrdered out h
    → IsOrdered out (apply_new out t h).1
unfolding apply_new
apply_new-IsOrdered out t h o = elim (Option-cases (out.fails (prepare t ∷ h))) [
  | inr (f, bad) ↦ rw (bad, apply_new) (tt, o)
  | inl good ↦ elim (Bool-cases (t.desired == Desired.stopped)) [
    | inl still ↦
        rw (good, still, apply_new)
          (prepared_stage out t h ((desired_beq_iff t.desired Desired.stopped).0 still) good o)
    | inr up ↦ rw (good, up, apply_new) (join_start out t (prepare t ∷ h) (tt, o))
  ]
]

stop_first-IsOrdered :
    (out : Outside) (t : Agent) (old : Definition) (h : History)
    → IsOrdered out h
    → IsOrdered out (stop_first out t old h).1
unfolding stop_first
stop_first-IsOrdered out t old h o =
    if_IsOrdered out (must_stop t old) (call out (stop old.name) h) (none, h) (tt, o) o

change_mode-IsOrdered :
    (out : Outside) (t : Agent) (old : Definition) (h : History)
    → IsOrdered out h
    → IsOrdered out (change_mode out t old h).1
unfolding change_mode
change_mode-IsOrdered out t old h o =
    if_IsOrdered out (t.mode != old.mode) (call out (set_mode old.name t.mode) h) (none, h) (tt, o)
      o

start_again-IsOrdered :
    (out : Outside) (t : Agent) (old : Definition) (h : History)
    → IsOrdered out h
    → IsOrdered out (start_again out t old h).1
unfolding start_again
start_again-IsOrdered out t old h o =
    let joined = call out (join t) h >> call out (start (definition t)) in
    if_IsOrdered out (t.desired == Desired.running)
      (if has_moved t old then (some moving, h) else joined) (none, h)
      (if_IsOrdered out (has_moved t old) (some moving, h) joined o (join_start out t h o)) o

apply_change-IsOrdered :
    (out : Outside) (t : Agent) (old : Definition) (h : History)
    → IsOrdered out h
    → IsOrdered out (apply_change out t old h).1
unfolding apply_change
apply_change-IsOrdered out t old h o =
    then-IsOrdered out (stop_first out t old h >> change_mode out t old) (start_again out t old)
      (then-IsOrdered out (stop_first out t old h) (change_mode out t old)
        (stop_first-IsOrdered out t old h o) (change_mode-IsOrdered out t old))
      (start_again-IsOrdered out t old)

apply-IsOrdered :
    (out : Outside) (t : Agent) (old : Definition) (exists : Bool) (h : History)
    → IsOrdered out h
    → IsOrdered out (apply out t old exists h).1
unfolding apply
apply-IsOrdered out t old exists h o = elim (Option-cases (target_fault t old exists)) [
  | inr (f, bad) ↦ rw (bad, apply) o
  | inl good ↦
      rw (good, apply)
        (if_IsOrdered out (not exists) (apply_new out t h)
          (if is_settled t old then (none, h) else apply_change out t old h)
          (apply_new-IsOrdered out t h o)
          (if_IsOrdered out (is_settled t old) (none, h) (apply_change out t old h) o
            (apply_change-IsOrdered out t old h o)))
]

noted-IsOrdered :
    (out : Outside) (s : Check) (next : Check → Check)
    → IsOrdered out s.history
    → (out.fails s.history ≡ none → IsOrdered out (next s).history)
    → IsOrdered out (noted out s next).history
unfolding noted
noted-IsOrdered out s next o more = elim (Option-cases (out.fails s.history)) [
  | inl good ↦ rw (good, noted) (more good)
  | inr (f, bad) ↦ rw (bad, noted) o
]

refused-IsOrdered :
    (out : Outside) (t : Agent) (f : Fault) (s : Check)
    → IsOrdered out s.history
    → IsOrdered out (refused out t f s).history
unfolding refused
refused-IsOrdered out t f s o = noted-IsOrdered out _ _ (tt, o) (λ good. (tt, o))

accepted-IsOrdered :
    (out : Outside) (t : Agent) (s : Check)
    → IsOrdered out s.history
    → IsOrdered out (accepted out t s).history
unfolding accepted
accepted-IsOrdered out t s o =
    noted-IsOrdered out _ _ (tt, o)
      (λ good.
        noted-IsOrdered out _ _ ((t.agent_id, (s.history, refl, good)), (tt, o))
          (λ fine. ((t.agent_id, (s.history, refl, good)), (tt, o))))

attempt-IsOrdered :
    (out : Outside) (t : Agent) (old : Definition) (exists : Bool) (s : Check)
    → IsOrdered out s.history
    → IsOrdered out (attempt out t old exists s).history
unfolding attempt
attempt-IsOrdered out t old exists s o =
    let kept = apply-IsOrdered out t old exists s.history o in
    elim (Option-cases (apply out t old exists s.history).0) [
      | inl good ↦ rw (good, attempt) (accepted-IsOrdered out t _ kept)
      | inr (f, bad) ↦ rw (bad, attempt) (refused-IsOrdered out t f _ kept)
    ]

check_revision-IsOrdered :
    (out : Outside) (t : Agent) (old : Definition) (exists : Bool) (s : Check)
    → IsOrdered out s.history
    → IsOrdered out (check_revision out t old exists s).history
unfolding check_revision
check_revision-IsOrdered out t old exists s o =
    elim (Bool-cases (leb t.revision old.revision || ltb t.revision 1)) [
      | inl stale ↦ rw (stale, check_revision) o
      | inr fresh ↦ elim (Option-cases (is_deferred out t s)) [
        | inr (text, waits) ↦ rw (fresh, waits, check_revision) o
        | inl due ↦ rw (fresh, due, check_revision) (attempt-IsOrdered out t old exists s o)
      ]
    ]
