-- ===== src/Primary/Port/Steps.antt =====
-- The callers and the background thread, step by step: each step is taken under the mutex.
use elite_robots_cs_sdk.Shared.{
  ℕ, ◌≡◌, refl, sym, ap, ◌∙◌, Bytes, true, none, some, ok, arith, Option-cases, Bool-cases, inl,
  inr, ◌⊎◌, ◌==◌,
}
use elite_robots_cs_sdk.Primary.Packages.{get_type}
use elite_robots_cs_sdk.Primary.Port.{Package, Port, deliver, insert_package, give_up}
use elite_robots_cs_sdk.Primary.Port.Waiting.{IsMatched, deliver-IsMatched, deliver-Delivered}

-- The two critical sections of `getPackage` for a pointer, and the delivery of a sub-package.
pub data Event : Type 0 where
  registers gives_up : ℕ → Event
  delivers : Event

pub data Step (port : Port) : Event → Port → Type 0 where
  registering : (p : ℕ) → Step port (registers p) (insert_package p port).1
  delivering :
      (t n : ℕ) (iter : Bytes) (later : Port)
      → deliver t n iter port ≡ ok later
      → Step port delivers later
  giving_up : (p : ℕ) → Step port (gives_up p) (give_up (get_type (port.heap p).contents) p port)

-- What can be reached from a port where nothing waits.
pub data IsReachable : Port → Type 0 where
  starts : (heap : ℕ → Package) → IsReachable (record { heap = heap; parser_sub_msg = λ t. none })
  goes : (port later : Port) (e : Event) → IsReachable port → Step port e later → IsReachable later

insert_package-IsMatched :
    (p : ℕ) (port : Port) → IsMatched port → IsMatched (insert_package p port).1
unfolding IsMatched
insert_package-IsMatched p port m t' p' h =
    ground (arith, m t' p', Option-cases (port.parser_sub_msg (get_type (port.heap p).contents)))

give_up-IsMatched : (t p : ℕ) (port : Port) → IsMatched port → IsMatched (give_up t p port)
unfolding IsMatched
give_up-IsMatched t p port m t' p' h = ground (arith, m t' p', Option-cases (port.parser_sub_msg t))

Step-IsMatched :
    (port later : Port) (e : Event) → Step port e later → IsMatched port → IsMatched later
Step-IsMatched port _ _ (registering p) m = insert_package-IsMatched p port m
Step-IsMatched port later _ (delivering t n iter _ e) m = deliver-IsMatched t n iter port later m e
Step-IsMatched port _ _ (giving_up p) m =
    give_up-IsMatched (get_type (port.heap p).contents) p port m

reachable-IsMatched : (port : Port) → IsReachable port → IsMatched port
unfolding IsMatched
reachable-IsMatched _ (starts heap) t p h = cc
reachable-IsMatched later (goes port _ e r s) t p h =
    Step-IsMatched port later e s (reachable-IsMatched port r) t p h

-- What becomes of a pointer that waits for a type: it goes on waiting, as it is; it is filled; or its own
-- caller gives up.
abbrev pub Fate : Port → Event → Port → ℕ → ℕ → Type 0
Fate port e later t p =
    ((later.parser_sub_msg t ≡ some p) × (later.heap p ≡ port.heap p))
    ⊎ (((later.parser_sub_msg t ≡ none) × (e ≡ delivers) × ((later.heap p).ready ≡ true))
        ⊎ ((later.parser_sub_msg t ≡ none) × (e ≡ gives_up p)))

insert_package-Fate :
    (q : ℕ) (port : Port) (t p : ℕ)
    → port.parser_sub_msg t ≡ some p
    → Fate port (registers q) (insert_package q port).1 t p
insert_package-Fate q port t p h =
    ground (arith, Option-cases (port.parser_sub_msg (get_type (port.heap q).contents)))

deliver-Fate :
    (t' n : ℕ) (iter : Bytes) (port later : Port) (t p : ℕ)
    → IsMatched port
    → deliver t' n iter port ≡ ok later
    → port.parser_sub_msg t ≡ some p
    → Fate port delivers later t p
unfolding IsMatched
deliver-Fate t' n iter port later t p m e h = elim (deliver-Delivered t' n iter port later e) [
  | inl (idle, same) ↦
      inl (ap (λ x. x.parser_sub_msg t) (sym same) ∙ h, ap (λ x. x.heap p) (sym same))
  | inr (p', d, waits, parsed, same) ↦ elim (Bool-cases (t == t')) [
    | inl this ↦ inr (
        inl (
          ap (λ x. x.parser_sub_msg t) (sym same) ∙ (ground arith),
          refl,
          ap (λ x. (x.heap p).ready) (sym same) ∙ (ground arith),
        ))
    | inr other ↦ inl (
      ap (λ x. x.parser_sub_msg t) (sym same) ∙ (ground arith),
      ap (λ x. x.heap p) (sym same) ∙ (ground (arith, m t p h, m t' p' waits)),
    )
  ]
]

give_up-Fate :
    (q : ℕ) (port : Port) (t p : ℕ)
    → port.parser_sub_msg t ≡ some p
    → Fate port (gives_up q) (give_up (get_type (port.heap q).contents) q port) t p
give_up-Fate q port t p h =
    ground (arith, Option-cases (port.parser_sub_msg (get_type (port.heap q).contents)))

-- In every state that can be reached a pointer waits only for the type of its package; and in the next step,
-- whatever it is, it goes on waiting with the same package, or it is filled by a delivery and waits no more,
-- or its own caller gives up.
pub waits_until :
    (port later : Port) (e : Event) (t p : ℕ)
    → IsReachable port
    → Step port e later
    → port.parser_sub_msg t ≡ some p
    → (get_type (port.heap p).contents ≡ t) × Fate port e later t p
unfolding IsMatched
waits_until port _ _ t p r (registering q) h =
    (reachable-IsMatched port r t p h, insert_package-Fate q port t p h)
waits_until port later _ t p r (delivering t' n iter _ e) h = (
  reachable-IsMatched port r t p h,
  deliver-Fate t' n iter port later t p (reachable-IsMatched port r) e h,
)
waits_until port _ _ t p r (giving_up q) h =
    (reachable-IsMatched port r t p h, give_up-Fate q port t p h)
