-- ===== src/Driver/Handles.antt =====
-- What the starts of the serial ports hand out.
use elite_robots_cs_sdk.Shared.{
  ℕ, zero, suc, ◌+◌, ◌≡◌, refl, sym, ap, subst, ◌∙◌, Bytes, true, false, Option, none, some, Result,
  ok, throws, fault, ℤ, pos, negsuc, Bool-cases, inl, inr, arith, ◌⊎◌,
}
use elite_robots_cs_sdk.Shared.Action.{followed}
use elite_robots_cs_sdk.Primary.Requests.{World, send_script}
use elite_robots_cs_sdk.Driver.Serial.{
  Remote, Act, SerialConfig, Handle, pid_of, get_socat_pid, is_positive, is_negative, ps_command,
  wait_socat, handed, on_primary, execute_command, start_rs485, tool_script, tool_command,
  board_script, board_command, if_primary, start_tool_rs485, start_board_rs485,
}

-- How far the outputs of SSH have been read.
abbrev Moved : ℕ → Remote → Remote → Type 0
Moved k w v = (j : ℕ) → v.outputs j ≡ w.outputs (k + j)

-- A PID that some command has printed.
abbrev pub IsPrinted : Remote → ℤ → Type 0
IsPrinted w pid = (i : ℕ) × (pid_of (w.outputs i) ≡ pid)

abbrev Finds : Remote → Result ℤ × Remote → Type 0
Finds w (ok pid, v) = IsPrinted w pid
Finds w (throws e, v) = Unit {0}
Finds w (fault, v) = Unit {0}

abbrev advanced : Remote → Bytes → Remote
advanced w cmd = (execute_command cmd w).1

advanced-Moved :
    (k : ℕ) (w v : Remote) (cmd : Bytes) → Moved k w v → Moved (k + 1) w (advanced v cmd)
advanced-Moved k w v cmd m j = m (suc j) ∙ ap w.outputs (omega arith)

Moved-IsPrinted : (k : ℕ) (w v : Remote) → Moved k w v → IsPrinted w (pid_of (v.outputs 0))
Moved-IsPrinted k w v m = (k + 0, ap pid_of (sym (m 0)))

wait_socat-Finds :
    (n k : ℕ) (port last : ℤ) (w v : Remote)
    → Moved k w v
    → IsPrinted w last
    → Finds w (wait_socat n port last v)
unfolding wait_socat get_socat_pid
wait_socat-Finds zero k port last w v m known = known
wait_socat-Finds (suc n) k port last w v m known =
    let printed = Moved-IsPrinted k w v m in
    elim (Bool-cases (is_positive (pid_of (v.outputs 0)))) [
      | inl p ↦ rw p printed
      | inr p ↦ rw p (
          wait_socat-Finds n (k + 1) port (pid_of (v.outputs 0)) w (advanced v (ps_command port))
            (advanced-Moved k w v (ps_command port) m) printed)
    ]

-- A start that hands a handle out.
abbrev Hands : Remote → ℤ → Result (Option Handle) × Remote → Type 0
Hands w port (ok (some h), v) = (h.0 ≡ port) × (is_negative h.1 ≡ false) × IsPrinted w h.1
Hands w port (ok none, v) = Unit {0}
Hands w port (throws e, v) = Unit {0}
Hands w port (fault, v) = Unit {0}

handed-Hands :
    (w : Remote) (port : ℤ) (r : Result ℤ × Remote)
    → Finds w r
    → Hands w port (followed (handed port) r)
handed-Hands w port (ok pid, v) f = elim (Bool-cases (is_negative pid)) [
  | inl n ↦ rw n tt
  | inr n ↦ rw n (refl, n, f)
]
handed-Hands w port (throws e, v) f = tt
handed-Hands w port (fault, v) f = tt

positive-handed : (pid : ℤ) → is_positive pid ≡ true → is_negative pid ≡ false
positive-handed (pos n) p = refl
positive-handed (negsuc n) p = absurd (cc)

start_rs485-Hands :
    (script cmd : Bytes) (port : ℤ) (primary : World) (w : Remote)
    → Hands w port (start_rs485 script cmd port primary w)
unfolding start_rs485 get_socat_pid
start_rs485-Hands script cmd port primary w =
    let first : IsPrinted w (pid_of (w.outputs 0)) =
      Moved-IsPrinted 0 w w (λ j. ap w.outputs (omega arith)) in
    elim (Bool-cases (is_positive (pid_of (w.outputs 0)))) [
      | inl p ↦ rw p (refl, positive-handed (pid_of (w.outputs 0)) p, first)
      | inr p ↦ rw p (elim (Bool-cases (send_script script primary).0) [
        | inr s ↦ rw s tt
        | inl s ↦ rw s (
            handed-Hands w port (wait_socat 10 port (pid_of (w.outputs 0)) asked) (
              wait_socat-Finds 10 2 port (pid_of (w.outputs 0)) w asked
                (λ j. ap w.outputs (omega arith)) first))
      ])
    ]
  where
    asked : Remote
    asked = advanced (on_primary script primary (advanced w (ps_command port))).1 cmd

if_primary-Hands :
    (f : World → Act (Option Handle)) (port : ℤ) (w : Remote)
    → ((primary : World) → Hands w port (f primary w))
    → Hands w port (if_primary f w)
if_primary-Hands f port w h = by_port w.primary_port
  where
    by_port :
        (o : Option World)
        → Hands w port (elim o as (λ _. Result (Option Handle) × Remote) [
          | none ↦ (ok none, w)
          | some primary ↦ f primary w
        ])
    by_port none = tt
    by_port (some primary) = h primary

-- A handle that `startToolRs485` or `startBoardRs485` hands out has the port that was asked for and a PID
-- that is not negative and that a command over SSH has printed.
pub starts-IsPrinted :
    (c : SerialConfig) (port : ℤ) (w v : Remote) (h : Handle)
    → (start_tool_rs485 c port w ≡ (ok (some h), v))
      ⊎ (start_board_rs485 c port w ≡ (ok (some h), v))
    → (h.0 ≡ port) × (is_negative h.1 ≡ false) × IsPrinted w h.1
unfolding start_tool_rs485 start_board_rs485
starts-IsPrinted c port w v h (inl e) = subst (Hands w port) e (
    if_primary-Hands (start_rs485 (tool_script c) (tool_command port) port) port w
      (λ primary. start_rs485-Hands (tool_script c) (tool_command port) port primary w))
starts-IsPrinted c port w v h (inr e) = subst (Hands w port) e (
    if_primary-Hands (start_rs485 (board_script c) (board_command port) port) port w
      (λ primary. start_rs485-Hands (board_script c) (board_command port) port primary w))
