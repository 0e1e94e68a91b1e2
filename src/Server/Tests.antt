-- ===== src/Server/Tests.antt =====
-- Properties of the server at concrete clients.
use elite_robots_cs_sdk.Shared.{ℕ, ◌≡◌, ◌↔◌, refl, [], true, false, none, ltb, if◌then◌else◌}
use elite_robots_cs_sdk.Server.{Server, BindOutcome, bound, in_use, accepted, is_client_connected}
use elite_robots_cs_sdk.Server.Clients.{IsReachable, new_server, goes, accepts, one_client}

abbrev listening : Server
listening = record {
  acceptor = true;
  socket = none;
  is_open = λ k. false;
  sent = λ k. [];
  receive_cb = false;
  received = [];
}

-- A client is there.
abbrev serving : Server
serving = accepted 4 listening

serving-IsReachable : IsReachable serving
serving-IsReachable = goes listening serving new_server (accepts 4 refl)

one_client_example :
    ((a b : ℕ) → serving.is_open a ≡ true → serving.is_open b ≡ true → a ≡ b)
    × ((is_client_connected serving ≡ true) ↔ ((k : ℕ) × (serving.is_open k ≡ true)))
one_client_example = one_client serving serving-IsReachable

five-closed : serving.is_open 5 ≡ false
unfolding accepted
five-closed = refl

abbrev third_free : ℕ → BindOutcome
third_free n = if ltb n 2 then in_use else bound
