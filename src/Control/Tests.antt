-- ===== src/Control/Tests.antt =====
-- Properties of the control frames at concrete commands.
use elite_robots_cs_sdk.Shared.{
  ◌⊎◌, ◌≢◌, ℕ, ◌≡◌, refl, List, [], ◌∷◌, ◌++◌, Bytes, map, true, false, some, ok, ◌==◌, ℤ, pos,
  negsuc, arith, All,
}
use elite_robots_cs_sdk.Endian.{unpack_array, w32}
use elite_robots_cs_sdk.Control.Words.{htonl, memory}
use elite_robots_cs_sdk.Control.Frames.{Scaling, ControlMode, mode_value, int}
use elite_robots_cs_sdk.Control.Reads.{IsInt32}
use elite_robots_cs_sdk.Server.{Server, update}
use elite_robots_cs_sdk.Control.Commands.{write_joint_command, write_joint_command-sent}
use elite_robots_cs_sdk.Control.Feedback.{
  motion, finished, on_receive, sent_feedback, on_receive-sent,
}

-- A stand-in for the processor: the patterns below 7 are small integers.
abbrev small : Scaling
small = record {
  round_double = λ x k. some (pos x);
  cut_double = λ x k. some (pos x);
  round_float = λ x k. some (pos x);
}

abbrev patterns : List ℕ
patterns = 1 ∷ 2 ∷ 3 ∷ 4 ∷ 5 ∷ 6 ∷ []

abbrev joints : List ℤ
joints = pos 1 ∷ pos 2 ∷ pos 3 ∷ pos 4 ∷ pos 5 ∷ pos 6 ∷ []

joints-IsInt32 : All IsInt32 joints
joints-IsInt32 = ground arith

-- A client is there.
abbrev reverse : Server
reverse = record {
  acceptor = true;
  socket = some 4;
  is_open = λ k. k == 4;
  sent = λ k. 9 ∷ [];
  receive_cb = false;
  received = [];
}

write_joint_command-sent_example :
    (bytes : Bytes) × (write_joint_command small
        (some patterns)
        ControlMode.servoj
        (negsuc 0)
        true
        reverse
      ≡ ok (true, record reverse { sent = update 4 ((9 ∷ []) ++ bytes) reverse.sent }))
    × (unpack_array w32 8 bytes 0
        ≡ ok (int (negsuc 0) ∷ (map int joints ++ (int (mode_value ControlMode.servoj) ∷ [])), 32))
write_joint_command-sent_example =
    write_joint_command-sent small patterns joints ControlMode.servoj (negsuc 0) 4 reverse refl refl
      joints-IsInt32 refl refl

-- A stand-in for the division.
abbrev over : ℤ → ℕ
over (pos n) = n
over (negsuc n) = 0

on_receive-sent_example :
    ((pos 3 ≡ pos 3)
      × (on_receive over true true
            (memory (map htonl (map int (pos 3 ∷ negsuc 0 ∷ pos 2 ∷ pos 1 ∷ joints))))
          ≡ motion (sent_feedback over (pos 3) (negsuc 0) (pos 2) (pos 1) joints)
            ∷ finished (pos 1)
            ∷ []))
    ⊎ ((pos 3 ≢ pos 3)
        × (on_receive over true true
              (memory (map htonl (map int (pos 3 ∷ negsuc 0 ∷ pos 2 ∷ pos 1 ∷ joints))))
            ≡ motion (sent_feedback over (pos 3) (negsuc 0) (pos 2) (pos 1) joints) ∷ []))
on_receive-sent_example =
    on_receive-sent over true true (pos 3) (negsuc 0) (pos 2) (pos 1) joints refl (ground arith)
