-- ===== src/Dashboard/Logging.antt =====
-- The escaping of a log message.
use elite_robots_cs_sdk.Shared.{
  ℕ, ◌≡◌, refl, ap, ◌∙◌, [], ◌∷◌, ◌++◌, Bytes, true, some, ◌==◌, if◌then◌else◌, arith, Bool-cases,
  inl, inr, or_fault, ok, codes,
}
use elite_robots_cs_sdk.Shared.Action.{followed, ◌>>=◌, lift, return}
use elite_robots_cs_sdk.Dashboard.Regex.{regex_search, rests, in_class}
use elite_robots_cs_sdk.Dashboard.{Dashboard, is_answer}
use elite_robots_cs_sdk.Dashboard.Commands.{line, crlf, answered, escaped, log_added, log}
use elite_robots_cs_sdk.Dashboard.Names.{Answers, heard, request-heard}
use elite_robots_cs_sdk.Dashboard.Escapes.{count, replaced, count-append, escape-replaced}

-- What `log` is to send for a message, byte by byte.
abbrev pub printed : ℕ → Bytes
printed c = if c == 10 then codes "\\n" else if c == 13 then codes "\\r" else c ∷ []

unfoldable pub one_pass : Bytes → Bytes
one_pass [] = []
one_pass (c ∷ cs) = printed c ++ one_pass cs

twice-one_pass :
    (message : Bytes)
    → replaced 13 (codes "\\r") (replaced 10 (codes "\\n") message) ≡ one_pass message
unfolding replaced one_pass
twice-one_pass [] = refl
twice-one_pass (c ∷ cs) = elim (Bool-cases (c == 10)) [
  | inl line ↦ rw (line, twice-one_pass cs) refl
  | inr other ↦
      rw (other, twice-one_pass cs)
        (elim (Bool-cases (c == 13)) [ inl return_ ↦ rw return_ refl | inr plain ↦ rw plain refl ])
]

one_pass-lines :
    (message : Bytes) → (count 10 (one_pass message) ≡ 0) × (count 13 (one_pass message) ≡ 0)
unfolding one_pass count
one_pass-lines [] = (refl, refl)
one_pass-lines (c ∷ cs) =
    let (line, return_) = one_pass-lines cs in
    elim (Bool-cases (c == 10)) [
      | inl a ↦ rw a (line, return_)
      | inr a ↦ rw a (elim (Bool-cases (c == 13)) [
        | inl b ↦ rw b (line, return_)
        | inr b ↦ rw (b, a, b) (line, return_)
      ])
    ]

-- The two loops of `log` end, with what one pass over the message gives: each newline is a backslash and
-- n, each carriage return a backslash and r, and every other byte is as it was. The result has
-- no newline and no carriage return.
pub escaped-one_pass :
    (message : Bytes)
    → (escaped message ≡ some (one_pass message))
      × (count 10 (one_pass message) ≡ 0)
      × (count 13 (one_pass message) ≡ 0)
unfolding escaped count
escaped-one_pass message =
    let (line, return_) = one_pass-lines message in
    (
      rw
          (
            escaped,
            escape-replaced 10 (codes "\\n") message refl,
            escape-replaced 13 (codes "\\r") (replaced 10 (codes "\\n") message) refl,
          )
          (ap some (twice-one_pass message)),
      line,
      return_,
    )

-- `log` with a message and an open socket that takes it whole, when the robot answers that the log has
-- been added: the result is true, and what is sent is one line, whatever is in the message: its only
-- newline is its last byte.
pub log-line :
    (w : Dashboard) (message : Bytes)
    → Answers w (crlf (codes "Log has been added."))
    → (log message w ≡ (ok true, heard w (codes "log -a " ++ one_pass message)))
      × (count 10 (codes "log -a " ++ line (one_pass message)) ≡ 1)
unfolding log count regex_search rests in_class
log-line w message a =
    let (e, none_left, _) = escaped-one_pass message in
    (
      ap
            (λ o.
              (lift (or_fault o) >>= λ text_. answered (line (codes "log -a " ++ text_)) log_added)
                w)
            e
          ∙ ap (followed λ response. return (is_answer response)) (
              request-heard w (codes "log -a " ++ one_pass message) (some log_added)
                (crlf (codes "Log has been added.")) a),
      omega (arith, count-append 10 (one_pass message) (10 ∷ []), none_left),
    )
