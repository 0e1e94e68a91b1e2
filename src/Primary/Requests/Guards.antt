-- ===== src/Primary/Requests/Guards.antt =====
-- The requests that wait for the robot's mode: what they return and what they send.
use elite_robots_cs_sdk.Shared.{
  ℕ, ◌≡◌, refl, sym, ap, ◌∙◌, ◌++◌, Bytes, codes, Bool, true, false, ◌||◌, Option, none, some, ltb,
  inl, inr, ◌⊎◌, ℤ, pos, negsuc,
}
use elite_robots_cs_sdk.Primary.Packages.{RobotModeData}
use elite_robots_cs_sdk.Primary.Requests.{
  World, Act, ◌>>=◌, return, robot_mode_package, master_board_package, wait_mode, and_wait, is_on,
  is_mode, mode_of, safety_of, status_of, is_paused, is_stopped, is_unlocked, is_unknown,
  TaskStatus, power_on, power_off, brake_release, pause_program, stop_program,
  unlock_protective_stop, is_released, release_idle, release_mode, release_known, release, pause_as,
  stop_as, unlock_with,
}
use elite_robots_cs_sdk.Primary.Requests.Scaling.{
  set_speed_scaling, is_scaled, scale_known, scale_in_range, fraction,
}
use elite_robots_cs_sdk.Primary.Requests.Waits.{Seen, and_wait-Seen, List-cases, first_read}

-- The requests, and the robot's mode that each is to bring about.
pub data Request : Type 0 where
  on off release_brake pause stop unlock : Request
  set_speed : ℤ → Request

-- A branch on a bool, of which both cases hold.
pub by_bool :
    (b : Bool) (first second : Act Bool) (v : World) (Q : Bool × World → Type 0)
    → (b ≡ true → Q (first v))
    → (b ≡ false → Q (second v))
    → Q ((elim b as (λ _. Act Bool) [ true ↦ first | false ↦ second ]) v)
by_bool true first second v Q f g = f refl
by_bool false first second v Q f g = g refl

-- A package that passes the test ends the request at once, or the request goes on and sees one.
abbrev Good : (Option RobotModeData → Bool) → Option RobotModeData → World → Bool × World → Type 0
Good test d v r = r.0 ≡ true → ((test d ≡ true) × (r.1 ≡ v)) ⊎ Seen test v r.1

fails :
    (test : Option RobotModeData → Bool) (d : Option RobotModeData) (v : World)
    → Good test d v (return false v)
fails test d v k = absurd cc

waits :
    (test : Option RobotModeData → Bool) (d : Option RobotModeData) (script : Bytes) (v : World)
    → test none ≡ false
    → Good test d v (and_wait script (wait_mode test) v)
waits test d script v blind k = inr (and_wait-Seen script test v blind k)

board_keeps : (w : World) → (master_board_package w).1.robot_modes ≡ w.robot_modes
unfolding master_board_package
board_keeps w = elim (List-cases w.master_boards) [ inl e ↦ rw e | inr (b, bs, e) ↦ rw e ]

-- The same when the master board is read in between.
release_idle-Good : (d : Option RobotModeData) (v : World) → Good is_released d v (release_idle v)
unfolding release_idle Seen
release_idle-Good d v =
    let b = (master_board_package v).0 in
    by_bool (is_mode 1 (safety_of b) || is_mode 2 (safety_of b) || is_mode 4 (safety_of b))
      (and_wait (codes "set robotmode run") (wait_mode is_released)) (return false)
      (master_board_package v).1 (Good is_released d v)
      (λ _ k.
        let (s, good, before, f) =
          and_wait-Seen (codes "set robotmode run") is_released (master_board_package v).1 refl k in
        inr (s, good, before, sym (board_keeps v) ∙ f))
      (λ _ k. absurd cc)

release-Good : (d : Option RobotModeData) (v : World) → Good is_released d v (release (mode_of d) v)
unfolding release release_known release_mode
release-Good d v =
    let m = mode_of d in
    let good = Good is_released d v in
    by_bool (is_unknown m) (return false) (release_known m) v good (λ _ k. absurd cc)
      (λ _.
        by_bool (is_mode 7 m) (return true) (release_mode m) v good (λ e k. inl (e, refl))
          (λ _.
            by_bool (is_mode 5 m) release_idle (return false) v good (λ _. release_idle-Good d v)
              (λ _ k. absurd cc)))

pause_as-Good :
    (d : Option RobotModeData) (v : World) (s : TaskStatus)
    → status_of d ≡ s
    → Good (λ d. is_paused (status_of d)) d v (pause_as s v)
unfolding pause_as
pause_as-Good d v TaskStatus.unknown e k = absurd cc
pause_as-Good d v TaskStatus.paused e k = inl (ap is_paused e, refl)
pause_as-Good d v TaskStatus.stopped e k = absurd cc
pause_as-Good d v TaskStatus.playing e k =
    waits (λ d. is_paused (status_of d)) d (codes "pause task") v refl k

stop_as-Good :
    (d : Option RobotModeData) (v : World) (s : TaskStatus)
    → status_of d ≡ s
    → Good (λ d. is_stopped (status_of d)) d v (stop_as s v)
unfolding stop_as
stop_as-Good d v TaskStatus.unknown e k = absurd cc
stop_as-Good d v TaskStatus.stopped e k = inl (ap is_stopped e, refl)
stop_as-Good d v TaskStatus.paused e k =
    waits (λ d. is_stopped (status_of d)) d (codes "stop task") v refl k
stop_as-Good d v TaskStatus.playing e k =
    waits (λ d. is_stopped (status_of d)) d (codes "stop task") v refl k

unlock_with-Good : (d : Option RobotModeData) (v : World) → Good is_unlocked d v (unlock_with d v)
unfolding unlock_with
unlock_with-Good none v k = absurd cc
unlock_with-Good (some d) v k =
    waits is_unlocked (some d) (codes "set unlock protective stop") v refl k

module _ (percent : ℕ → ℤ) where
  abbrev pub request : Request → Act Bool
  request Request.on = power_on
  request Request.off = power_off
  request Request.release_brake = brake_release
  request Request.pause = pause_program
  request Request.stop = stop_program
  request Request.unlock = unlock_protective_stop
  request (Request.set_speed scaling) = set_speed_scaling percent scaling

  abbrev pub aim : Request → Option RobotModeData → Bool
  aim Request.on d = is_on (mode_of d)
  aim Request.off d = is_mode 3 (mode_of d)
  aim Request.release_brake d = is_released d
  aim Request.pause d = is_paused (status_of d)
  aim Request.stop d = is_stopped (status_of d)
  aim Request.unlock d = is_unlocked d
  aim (Request.set_speed (pos n)) d = is_scaled percent n d
  aim (Request.set_speed (negsuc n)) d = false

  -- Each of `powerOn`, `powerOff`, `brakeRelease`, `pauseProgram`, `stopProgram`,
  -- `unlockProtectiveStop` and `setSpeedScaling`, where it returns true, saw what it is to bring
  -- about in the last mode package that it was given.
  pub requests-Seen :
      (r : Request) (w : World) → (request r w).0 ≡ true → Seen (aim r) w (request r w).1
  unfolding power_on power_off brake_release pause_program stop_program unlock_protective_stop
      set_speed_scaling scale_in_range scale_known
  requests-Seen Request.on w h =
      let test = aim Request.on in
      let script = codes "power on" in
      first_read test _ w refl
        (λ d v.
          by_bool (is_on (mode_of d)) (return true) (and_wait script (wait_mode test)) v
            (Good test d v) (λ e k. inl (e, refl)) (λ e. waits test d script v refl))
        h
  requests-Seen Request.off w h = and_wait-Seen (codes "power off") (aim Request.off) w refl h
  requests-Seen Request.release_brake w h =
      first_read is_released (λ d. release (mode_of d)) w refl release-Good h
  requests-Seen Request.pause w h =
      first_read (aim Request.pause) (λ d. pause_as (status_of d)) w refl
        (λ d v. pause_as-Good d v (status_of d) refl) h
  requests-Seen Request.stop w h =
      first_read (aim Request.stop) (λ d. stop_as (status_of d)) w refl
        (λ d v. stop_as-Good d v (status_of d) refl) h
  requests-Seen Request.unlock w h = first_read is_unlocked unlock_with w refl unlock_with-Good h
  requests-Seen (Request.set_speed (pos n)) w h =
      by_bool (ltb 100 n) (return false) (robot_mode_package >>= scale_in_range percent n) w
        (λ r. r.0 ≡ true → Seen (is_scaled percent n) w r.1) (λ _ k. absurd cc)
        (λ _. first_read (is_scaled percent n) (scale_in_range percent n) w refl (λ d v.
          by_bool (is_unknown (mode_of d)) (return false) (scale_known percent n) v
            (Good (is_scaled percent n) d v) (λ _ k. absurd cc)
            (λ _. waits (is_scaled percent n) d (codes "set speed " ++ fraction n) v refl)))
        h
  requests-Seen (Request.set_speed (negsuc n)) w h = absurd cc
