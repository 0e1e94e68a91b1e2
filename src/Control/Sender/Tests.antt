-- ===== src/Control/Sender/Tests.antt =====
-- Requests of a robot.
use elite_robots_cs_sdk.Shared.{◌≡◌, refl, List, [], ◌∷◌, ◌++◌, Bytes, codes, arith}
use elite_robots_cs_sdk.Control.Sender.Chunks.{ready, receive_chunks, answers, chunks-answered}

abbrev requests : List Bytes
requests = codes "hello" ∷ codes "request_program" ∷ []

abbrev cut : List Bytes
cut = codes "hel" ∷ (codes "lo" ++ (10 ∷ codes "request_")) ∷ (codes "program" ++ (10 ∷ [])) ∷ []

chunks-answered_example :
    receive_chunks (codes "p()") cut (ready [] []) ≡ ready [] ([] ++ answers (codes "p()") requests)
chunks-answered_example = chunks-answered (codes "p()") cut requests [] (ground arith) refl
