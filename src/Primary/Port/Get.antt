-- ===== src/Primary/Port/Get.antt =====
-- `getPackage` when a state message fills the package, when none does, and on a package that was filled
-- before.
use elite_robots_cs_sdk.Shared.{
  ℕ, ◌≡◌, ◌≢◌, refl, ap, ◌∙◌, false, List, [], ◌∷◌, ◌++◌, true, false, none, some, ok, ==_refl, All,
  arith,
}
use elite_robots_cs_sdk.Primary.Packages.{Contents, get_type, parser}
use elite_robots_cs_sdk.Primary.Port.{Port, write, arrive, insert_package, give_up, get_package}
use elite_robots_cs_sdk.Primary.Port.Loop.{
  Sub, sub_len, body, deliver_all, IsSub, parser_state_body_whole,
}
use elite_robots_cs_sdk.Primary.Port.Waiting.{IsMatched, fills, waiting}

-- The port when a pointer is registered.
abbrev pub registered : ℕ → Port → Port
registered p port = record port {
  parser_sub_msg = write (get_type (port.heap p).contents) (some p) port.parser_sub_msg;
}

insert_package_free :
    (p : ℕ) (port : Port)
    → port.parser_sub_msg (get_type (port.heap p).contents) ≡ none
    → insert_package p port ≡ (true, registered p port)
insert_package_free p port e = rw (e, insert_package) refl

insert_package_taken :
    (p q : ℕ) (port : Port)
    → port.parser_sub_msg (get_type (port.heap p).contents) ≡ some q
    → insert_package p port ≡ (false, port)
insert_package_taken p q port e = rw (e, insert_package) refl

pub registered-IsMatched : (p : ℕ) (port : Port) → IsMatched port → IsMatched (registered p port)
unfolding IsMatched
registered-IsMatched p port m t p' h = ground (arith, m t p')

arrive_one :
    (qs : List Sub) (port later : Port)
    → All IsSub qs
    → deliver_all qs [] port ≡ ok later
    → arrive (body qs [] ∷ []) port ≡ ok later
unfolding arrive
arrive_one qs port later h e = rw (parser_state_body_whole qs port h, e)

-- A state message of whole sub-packages comes, one of which has the type of a package for whose
-- type nothing waits, in a port where every waiting package waits for its own type, and all
-- deliveries succeed: `getPackage` returns true, the package has what its parser reads from the
-- first such sub-package and is ready, and nothing waits for the type any more.
pub get_package_served :
    (front : List Sub) (q : Sub) (back : List Sub) (p : ℕ) (port later : Port)
    → IsMatched port
    → get_type (port.heap p).contents ≡ q.sub_type
    → port.parser_sub_msg (get_type (port.heap p).contents) ≡ none
    → All (λ o. o.sub_type ≢ q.sub_type) front
    → All IsSub (front ++ (q ∷ back))
    → deliver_all (front ++ (q ∷ back)) [] (registered p port) ≡ ok later
    → (d : Contents) × (get_package p (body (front ++ (q ∷ back)) [] ∷ []) port ≡ ok (true, later))
      × (parser (sub_len q) (body (q ∷ back) []) (port.heap p).contents ≡ ok d)
      × (later.heap p ≡ record { contents = d; ready = true })
      × (later.parser_sub_msg q.sub_type ≡ none)
unfolding get_package
get_package_served front q back p port later m kind free before h e =
    let (d, parsed, new, gone) =
      fills front q back [] p (registered p port) later (registered-IsMatched p port m) kind
        (ground (arith, kind)) before e in
    (
      d,
      rw (
        insert_package_free p port free,
        get_package,
        arrive_one (front ++ (q ∷ back)) (registered p port) later h e,
        new,
      ),
      parsed,
      new,
      gone,
    )

-- A state message of whole sub-packages comes, none of the type of a package that is not ready and
-- for whose type nothing waits, in a port where every waiting package waits for its own type, and
-- all deliveries succeed: `getPackage` returns false, the package is not changed, and its
-- registration is taken back.
get_package_missed :
    (qs : List Sub) (p : ℕ) (port later : Port)
    → IsMatched port
    → port.parser_sub_msg (get_type (port.heap p).contents) ≡ none
    → (port.heap p).ready ≡ false
    → All (λ o. o.sub_type ≢ get_type (port.heap p).contents) qs
    → All IsSub qs
    → deliver_all qs [] (registered p port) ≡ ok later
    → (get_package p (body qs [] ∷ []) port
        ≡ ok (false, give_up (get_type (port.heap p).contents) p later))
      × (later.heap p ≡ port.heap p)
      × ((give_up (get_type (port.heap p).contents) p later).parser_sub_msg
            (get_type (port.heap p).contents)
          ≡ none)
unfolding get_package
get_package_missed qs p port later m free unready before h e =
    let (kept, waits) =
      waiting qs [] p (registered p port) later (registered-IsMatched p port m) (ground arith)
        before e in
    (
      rw (
        insert_package_free p port free,
        get_package,
        arrive_one qs (registered p port) later h e,
        kept,
        unready,
      ),
      kept,
      rw (waits, give_up, ==_refl p) (ground arith),
    )

-- A package that is ready from an earlier update, and for whose type nothing waits, in a port where every
-- waiting package waits for its own type: `getPackage` returns true at once, with the old contents, and
-- leaves the package registered. After a state message of whole sub-packages, none of which has the
-- type, with all deliveries, it still is, with the old contents, and `getPackage` of a package of the
-- type returns false.
pub get_package_again :
    (qs : List Sub) (p other : ℕ) (port later : Port)
    → IsMatched port
    → port.parser_sub_msg (get_type (port.heap p).contents) ≡ none
    → (port.heap p).ready ≡ true
    → All (λ o. o.sub_type ≢ get_type (port.heap p).contents) qs
    → All IsSub qs
    → deliver_all qs [] (registered p port) ≡ ok later
    → get_type (later.heap other).contents ≡ get_type (port.heap p).contents
    → (get_package p [] port ≡ ok (true, registered p port))
      × (arrive (body qs [] ∷ []) (registered p port) ≡ ok later)
      × (later.heap p ≡ port.heap p)
      × (get_package other [] later ≡ ok (false, later))
unfolding get_package arrive
get_package_again qs p other port later m free old before h e same =
    let (kept, waits) =
      waiting qs [] p (registered p port) later (registered-IsMatched p port m) (ground arith)
        before e in
    (
      rw (insert_package_free p port free, get_package, old),
      arrive_one qs (registered p port) later h e,
      kept,
      rw (insert_package_taken other p later (ap later.parser_sub_msg same ∙ waits), get_package),
    )
