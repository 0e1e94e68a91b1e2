-- ===== src/Driver/OnePass.antt =====
-- The replacement of a placeholder against one pass over the text.
use mathlib.Core.List.{append_assoc}
use elite_robots_cs_sdk.Shared.{
  ℕ, zero, suc, ◌+◌, ◌-◌, ◌≤◌, ◌≡◌, refl, sym, ap, ◌∙◌, [], ◌∷◌, ◌++◌, Bytes, true, false, List,
  Option, none, some, length, take, drop, ◌==◌, ==_refl, if◌then◌else◌, arith, Bool-cases, inl, inr,
  All, length-append, take-length-append, drop-length-append,
}
use elite_robots_cs_sdk.Text.{begins, find_first, next_pos}
use elite_robots_cs_sdk.Driver.Template.{
  Config, Printing, replace_loop, replace, parameters, replace_each, script_param_write,
}
use elite_robots_cs_sdk.Driver.Clean.{
  IsClean, find_first-behind, find_first-none, first-place, IsClean-through, IsClean-append,
  IsClean-without,
}

-- One pass: the bytes of a placeholder that has been replaced are skipped.
unfoldable pub one_pass_from : ℕ → Bytes → Bytes → Bytes → Bytes
unfolding begins
one_pass_from skip needle by [] = []
one_pass_from (suc k) needle by (x ∷ s) = one_pass_from k needle by s
one_pass_from zero needle by (x ∷ s) =
    let found = one_pass_from (length needle - 1) needle by s in
    let passed = one_pass_from zero needle by s in
    if begins needle (x ∷ s) then by ++ found else x ∷ passed

one_pass-skip :
    (needle by u s : Bytes)
    → one_pass_from (length u) needle by (u ++ s) ≡ one_pass_from zero needle by s
unfolding one_pass_from
one_pass-skip needle by [] s = refl
one_pass-skip needle by (x ∷ u) s = one_pass-skip needle by u s

begins_self : (needle s : Bytes) → begins needle (needle ++ s) ≡ true
unfolding begins
begins_self [] s = refl
begins_self (d ∷ ds) s = rw (==_refl d, begins_self ds s) refl

pub one_pass-found :
    (d : ℕ) (ds by post : Bytes)
    → one_pass_from zero (d ∷ ds) by ((d ∷ ds) ++ post) ≡ by ++ one_pass_from zero (d ∷ ds) by post
unfolding one_pass_from
one_pass-found d ds by post =
    let skip : suc (length ds) - 1 ≡ length ds = omega arith in
    rw (begins_self (d ∷ ds) post, skip, one_pass-skip (d ∷ ds) by ds post) refl

pub one_pass-clean :
    (needle by pre rest : Bytes)
    → IsClean needle pre rest
    → one_pass_from zero needle by (pre ++ rest) ≡ pre ++ one_pass_from zero needle by rest
unfolding one_pass_from
one_pass-clean needle by [] rest h = refl
one_pass-clean needle by (x ∷ pre) rest (b, h) = rw (b, one_pass-clean needle by pre rest h) refl

one_pass-none :
    (needle by s : Bytes) → find_first needle s ≡ none → one_pass_from zero needle by s ≡ s
unfolding one_pass_from find_first
one_pass-none needle by [] h = refl
one_pass-none needle by (x ∷ s) h = elim (Bool-cases (begins needle (x ∷ s))) [
  | inl b ↦ absurd (let bad = rw b at h in cc)
  | inr b ↦
      let none_later : find_first needle s ≡ none =
        next_pos-none (find_first needle s) (rw b at h) in
      rw (b, one_pass-none needle by s none_later) refl
]
  where
    next_pos-none : (o : Option ℕ) → next_pos o ≡ none → o ≡ none
    next_pos-none none e = refl
    next_pos-none (some i) e = absurd (cc)

-- A placeholder, and a text that it is replaced by: the text has a first byte, which is not in the
-- placeholder, and has not the placeholder's first byte.
abbrev pub IsFresh : Bytes → Bytes → Type 0
IsFresh (d ∷ ds) (c ∷ cs) =
    All (λ x. (x == c) ≡ false) (d ∷ ds) × All (λ x. (d == x) ≡ false) (c ∷ cs)
IsFresh needle by = ⊥

-- The text of a round.
put-in :
    (needle by front pre post : Bytes)
    → take (length front + length pre) (front ++ (pre ++ (needle ++ post)))
        ++ (by
            ++ drop
                (length front + length pre + length needle)
                (front ++ (pre ++ (needle ++ post))))
      ≡ (front ++ (pre ++ by)) ++ post
put-in needle by front pre post =
    let len : length front + length pre ≡ length (front ++ pre) =
      omega (arith, length-append front pre) in
    let behind : length front + length pre + length needle ≡ length ((front ++ pre) ++ needle) =
      omega (arith, length-append front pre, length-append (front ++ pre) needle) in
    let assoc : front ++ (pre ++ (needle ++ post)) ≡ (front ++ pre) ++ (needle ++ post) =
      sym (append_assoc front pre (needle ++ post)) in
    let assoc' : (front ++ pre) ++ (needle ++ post) ≡ ((front ++ pre) ++ needle) ++ post =
      sym (append_assoc (front ++ pre) needle post) in
    let taken : take (length front + length pre) (front ++ (pre ++ (needle ++ post)))
        ≡ front ++ pre =
      rw (len, assoc) (take-length-append (front ++ pre) (needle ++ post)) in
    let dropped : drop (length front + length pre + length needle)
          (front ++ (pre ++ (needle ++ post)))
        ≡ post =
      rw (behind, assoc, assoc') (drop-length-append ((front ++ pre) ++ needle) post) in
    rw (taken, dropped) (rw (append_assoc, append_assoc, append_assoc) refl)

abbrev Replaces : ℕ → Bytes → Bytes → Type 0
Replaces fuel needle by =
    (front rest : Bytes)
    → IsClean needle front rest
    → length rest ≤ fuel
    → (replace_loop fuel needle by (front ++ rest)
        ≡ some (front ++ one_pass_from zero needle by rest))
      × (find_first needle (front ++ one_pass_from zero needle by rest) ≡ none)

replaces-none :
    (fuel : ℕ) (needle by front rest : Bytes)
    → IsClean needle front rest
    → find_first needle rest ≡ none
    → (replace_loop fuel needle by (front ++ rest)
        ≡ some (front ++ one_pass_from zero needle by rest))
      × (find_first needle (front ++ one_pass_from zero needle by rest) ≡ none)
unfolding replace_loop
replaces-none zero needle by front rest h f =
    let gone = find_first-none needle front rest h f in
    rw (one_pass-none needle by rest f) (rw (gone, replace_loop) refl, gone)
replaces-none (suc fuel) needle by front rest h f =
    let gone = find_first-none needle front rest h f in
    rw (one_pass-none needle by rest f) (rw (gone, replace_loop) refl, gone)

-- What a round leaves before the text that it is still to look at.
round-IsClean :
    (needle by front pre post : Bytes)
    → IsFresh needle by
    → IsClean needle front (pre ++ (needle ++ post))
    → IsClean needle pre (needle ++ post)
    → IsClean needle (front ++ (pre ++ by)) post
round-IsClean [] by front pre post fresh h k = absurd fresh
round-IsClean (d ∷ ds) [] front pre post fresh h k = absurd fresh
round-IsClean (d ∷ ds) (c ∷ cs) front pre post (lacks, without) h k =
    let both = IsClean-append (d ∷ ds) front pre ((d ∷ ds) ++ post) h k in
    let through =
      IsClean-through (d ∷ ds) (front ++ pre) c (cs ++ post) ((d ∷ ds) ++ post) lacks both in
    let whole =
      IsClean-append (d ∷ ds) (front ++ pre) (c ∷ cs) post through
        (IsClean-without d ds (c ∷ cs) post without) in
    rw⁻¹ (append_assoc front pre (c ∷ cs)) whole

loop-step :
    (fuel : ℕ) (needle by s : Bytes) (i : ℕ)
    → find_first needle s ≡ some i
    → replace_loop (suc fuel) needle by s
      ≡ replace_loop fuel needle by (take i s ++ (by ++ drop (i + length needle) s))
unfolding replace_loop
loop-step fuel needle by s i e = rw (e, replace_loop) refl

fresh-length : (needle by : Bytes) → IsFresh needle by → 1 ≤ length needle
fresh-length [] by fresh = absurd fresh
fresh-length (d ∷ ds) by fresh = omega arith

round-Replaces :
    (fuel : ℕ) (needle by front pre post : Bytes)
    → Replaces fuel needle by
    → IsFresh needle by
    → IsClean needle front (pre ++ (needle ++ post))
    → find_first needle (pre ++ (needle ++ post)) ≡ some (length pre)
    → IsClean needle pre (needle ++ post)
    → length (pre ++ (needle ++ post)) ≤ suc fuel
    → (replace_loop (suc fuel) needle by (front ++ (pre ++ (needle ++ post)))
        ≡ some (front ++ one_pass_from zero needle by (pre ++ (needle ++ post))))
      × (find_first needle (front ++ one_pass_from zero needle by (pre ++ (needle ++ post))) ≡ none)
unfolding replace_loop
round-Replaces fuel [] by front pre post replaces fresh h f k room = absurd fresh
round-Replaces fuel (d ∷ ds) by front pre post replaces fresh h f k room =
    let needle = d ∷ ds in
    let shorter : length post ≤ fuel =
      omega (arith, length-append pre (needle ++ post), length-append needle post) in
    let (run, gone) =
      replaces (front ++ (pre ++ by)) post (round-IsClean needle by front pre post fresh h k)
        shorter in
    let found = find_first-behind needle front (pre ++ (needle ++ post)) (length pre) h f in
    let passed : front ++ one_pass_from zero needle by (pre ++ (needle ++ post))
        ≡ (front ++ (pre ++ by)) ++ one_pass_from zero needle by post =
      ap (λ s. front ++ s)
        (one_pass-clean needle by pre (needle ++ post) k
          ∙ ap (λ s. pre ++ s) (one_pass-found d ds by post))
      ∙ (rw (append_assoc, append_assoc) refl) in
    (
      loop-step fuel needle by (front ++ (pre ++ (needle ++ post))) (length front + length pre)
            found
          ∙ ap (replace_loop fuel needle by) (put-in needle by front pre post)
          ∙ run
          ∙ ap some (sym passed),
      ap (find_first needle) passed ∙ gone,
    )

fuel-Replaces : (fuel : ℕ) (needle by : Bytes) → IsFresh needle by → Replaces fuel needle by
fuel-Replaces zero needle by fresh front rest h room = elim (first-place needle rest) [
  | inl missing ↦ replaces-none zero needle by front rest h missing
  | inr (pre, post, e, f, k) ↦ absurd (
      omega (
        arith,
        fresh-length needle by fresh,
        length-append pre (needle ++ post),
        length-append needle post,
        ap length e,
      ))
]
fuel-Replaces (suc fuel) needle by fresh front rest h room = elim (first-place needle rest) [
  | inl missing ↦ replaces-none (suc fuel) needle by front rest h missing
  | inr (pre, post, e, f, k) ↦ rw e (
      round-Replaces fuel needle by front pre post (fuel-Replaces fuel needle by fresh) fresh
        (rw e at h) (rw e at f) k (rw e at room))
]

-- The loop that replaces a placeholder ends, where the text that is put in has a first byte, which is not
-- in the placeholder, and has not the placeholder's first byte: the result is that of one pass
-- from left to right, and the placeholder is no longer found in it.
pub replace-one_pass :
    (needle by s : Bytes)
    → IsFresh needle by
    → (replace needle by s ≡ some (one_pass_from zero needle by s))
      × (find_first needle (one_pass_from zero needle by s) ≡ none)
unfolding replace
replace-one_pass needle by s fresh = fuel-Replaces (length s) needle by fresh [] s tt (omega arith)

-- One pass for each placeholder, in their order.
unfoldable pub passes : List (Bytes × Bytes) → Bytes → Bytes
passes [] s = s
passes ((needle, by) ∷ later) s = passes later (one_pass_from zero needle by s)

replace_each-passes :
    (ps : List (Bytes × Bytes)) (s : Bytes)
    → All (λ p. IsFresh p.0 p.1) ps
    → replace_each ps s ≡ some (passes ps s)
unfolding replace_each passes
replace_each-passes [] s h = refl
replace_each-passes ((needle, by) ∷ ps) s (fresh, h) =
    rw ((replace-one_pass needle by s fresh).0, replace_each)
      (replace_each-passes ps (one_pass_from zero needle by s) h)

-- `scriptParamWrite` ends on every script, with what one pass for each placeholder gives, where no text
-- that is put in begins with a byte of its placeholder or has the placeholder's first byte, a
-- brace.
pub script_param_write-passes :
    (p : Printing) (local_ip : Bytes) (c : Config) (s : Bytes)
    → All (λ e. IsFresh e.0 e.1) (parameters p local_ip c)
    → script_param_write p local_ip c s ≡ some (passes (parameters p local_ip c) s)
unfolding script_param_write
script_param_write-passes p local_ip c s h = replace_each-passes (parameters p local_ip c) s h
