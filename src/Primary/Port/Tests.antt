-- ===== src/Primary/Port/Tests.antt =====
-- Properties of the primary port at a concrete state message.
use elite_robots_cs_sdk.Shared.{
  ◌≡◌, refl, [], ◌∷◌, ◌++◌, true, false, none, some, ok, fault, ◌>>=◌, replicate, arith, pos,
  negsuc,
}
use elite_robots_cs_sdk.Endian.{pack}
use elite_robots_cs_sdk.Primary.Packages.{
  MasterBoardData, Contents, master_board_data, get_type, parser, master_board_parser,
}
use elite_robots_cs_sdk.Primary.Port.{
  Package, Port, write, deliver, parser_state_body, get_package, arrive, give_up,
}
use elite_robots_cs_sdk.Primary.Port.Loop.{
  Sub, sub_len, body, deliver_all, parser_state_body_whole, parser_state_body_outside,
}
use elite_robots_cs_sdk.Primary.Port.Waiting.{IsMatched}
use elite_robots_cs_sdk.Primary.Port.Get.{registered, get_package_served, get_package_again}
use elite_robots_cs_sdk.Primary.Port.Steps.{
  registers, gives_up, registering, giving_up, IsReachable, starts, goes, Fate, waits_until,
}

abbrev unknown_board : MasterBoardData
unknown_board = record {
  safety_mode = negsuc 1;
  is_robot_in_reduced_mode = false;
  operational_mode_selector_input = false;
  threeposition_enabling_device_input = false;
  internal_use = 0;
}

abbrev new_board : Package
new_board = record { contents = master_board_data unknown_board; ready = false }

-- Nothing waits, and every pointer is a new MasterBoardDataPackage.
abbrev idle : Port
idle = record { heap = λ p. new_board; parser_sub_msg = λ t. none }

idle-IsMatched : IsMatched idle
unfolding IsMatched
idle-IsMatched t p h = absurd cc

-- Master board data: 78 bytes that are not read, then the five status bytes.
abbrev board_sub : Sub
board_sub = record { sub_type = 3; payload = replicate 78 0 ++ (1 ∷ 0 ∷ 1 ∷ 0 ∷ 9 ∷ []) }

-- A sub-package of a type that nothing waits for.
abbrev other_sub : Sub
other_sub = record { sub_type = 1; payload = 5 ∷ [] }

abbrev read_board : Package
read_board = record {
  contents = master_board_data (record {
    safety_mode = pos 1;
    is_robot_in_reduced_mode = false;
    operational_mode_selector_input = true;
    threeposition_enabling_device_input = false;
    internal_use = 9;
  });
  ready = true;
}

abbrev filled : Port
filled = record {
  heap = write 7 read_board (λ p. new_board);
  parser_sub_msg = write 3 none (write 3 (some 7) (λ t. none));
}

subs-fill : deliver_all (other_sub ∷ board_sub ∷ []) [] (registered 7 idle) ≡ ok filled
unfolding deliver parser master_board_parser pack
subs-fill = refl

parser_state_body_whole_example :
    parser_state_body (body (other_sub ∷ board_sub ∷ []) []) (registered 7 idle) ≡ (
      deliver_all (other_sub ∷ board_sub ∷ []) [] (registered 7 idle) >>= λ port.
      ok (some true, port))
parser_state_body_whole_example =
    parser_state_body_whole (other_sub ∷ board_sub ∷ []) (registered 7 idle)
      ((omega arith, omega arith), ((omega arith, omega arith), tt))

parser_state_body_outside_example :
    parser_state_body (body (other_sub ∷ []) (0 ∷ 0 ∷ [])) idle
    ≡ (deliver_all (other_sub ∷ []) (0 ∷ 0 ∷ []) idle >>= λ port. fault)
parser_state_body_outside_example =
    parser_state_body_outside (other_sub ∷ []) (0 ∷ 0 ∷ []) idle ((omega arith, omega arith), tt)
      (omega arith) (omega arith)

get_package_served_example :
    (d : Contents) × (get_package 7 (body (other_sub ∷ board_sub ∷ []) [] ∷ []) idle
      ≡ ok (true, filled))
    × (parser (sub_len board_sub) (body (board_sub ∷ []) []) (idle.heap 7).contents ≡ ok d)
    × (filled.heap 7 ≡ record { contents = d; ready = true })
    × (filled.parser_sub_msg 3 ≡ none)
get_package_served_example =
    get_package_served (other_sub ∷ []) board_sub [] 7 idle filled idle-IsMatched refl refl
      (omega arith, tt) ((omega arith, omega arith), ((omega arith, omega arith), tt)) subs-fill

other-leaves : deliver_all (other_sub ∷ []) [] (registered 7 idle) ≡ ok (registered 7 idle)
unfolding deliver
other-leaves = refl

filled-IsMatched : IsMatched filled
unfolding IsMatched
filled-IsMatched t p h = absurd (ground arith)

other-filled : deliver_all (other_sub ∷ []) [] (registered 7 filled) ≡ ok (registered 7 filled)
unfolding deliver
other-filled = refl

-- A sub-package of another type comes, and the registration stays.
get_package_again_example :
    (get_package 7 [] filled ≡ ok (true, registered 7 filled))
    × (arrive (body (other_sub ∷ []) [] ∷ []) (registered 7 filled) ≡ ok (registered 7 filled))
    × ((registered 7 filled).heap 7 ≡ filled.heap 7)
    × (get_package 8 [] (registered 7 filled) ≡ ok (false, registered 7 filled))
get_package_again_example =
    get_package_again (other_sub ∷ []) 7 8 filled (registered 7 filled) filled-IsMatched refl refl
      (omega arith, tt) ((omega arith, omega arith), tt) other-filled refl

abbrev one_waits : IsReachable (registered 7 idle)
one_waits = goes idle (registered 7 idle) (registers 7) (starts (λ p. new_board)) (registering 7)

-- Another caller of the type gives up, which does not end the wait.
waits_until_example :
    (get_type ((registered 7 idle).heap 7).contents ≡ 3)
    × Fate (registered 7 idle) (gives_up 8) (give_up 3 8 (registered 7 idle)) 3 7
waits_until_example =
    waits_until (registered 7 idle) (give_up 3 8 (registered 7 idle)) (gives_up 8) 3 7 one_waits
      (giving_up 8) refl
