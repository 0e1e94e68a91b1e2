-- ===== src/Driver/Rendering.antt =====
-- `scriptParamWrite` against the script as its author means it: text with holes.
use elite_robots_cs_sdk.Shared.{
  ◌≡◌, refl, sym, ap, ◌∙◌, List, [], ◌∷◌, ◌++◌, Bytes, Bool, true, false, some, codes,
  if◌then◌else◌, bytes_eq, bytes_eq_iff, All, map, Bool-cases, inl, inr, pos, ◌==◌, subst,
}
use elite_robots_cs_sdk.Version.Decimal.{int_to_string}
use elite_robots_cs_sdk.Driver.Template.{Config, Printing, parameters, script_param_write}
use elite_robots_cs_sdk.Driver.Clean.{IsClean-without}
use elite_robots_cs_sdk.Driver.Braces.{braced, is_plain, braced-IsClean}
use elite_robots_cs_sdk.Driver.OnePass.{
  one_pass_from, one_pass-clean, one_pass-found, IsFresh, passes, script_param_write-passes,
}

-- What a script can ask for.
pub data Hole : Type 0 where
  server_ip reverse_port trajectory_port script_command_port : Hole
  servoj_parameters servoj_time servoj_extrapolate_max_time servoj_decelerate_time : Hole
  servoj_hold_velocity_threshold servoj_hold_stable_time stopj_acc : Hole
  pos_zoom_ratio time_zoom_ratio common_zoom_ratio : Hole
  reverse_data_size trajectory_data_size script_command_data_size : Hole

unfoldable pub name_of : Hole → Bytes
name_of server_ip = codes "SERVER_IP_REPLACE"
name_of reverse_port = codes "REVERSE_PORT_REPLACE"
name_of trajectory_port = codes "TRAJECTORY_SERVER_PORT_REPLACE"
name_of script_command_port = codes "SCRIPT_COMMAND_PORT_REPLACE"
name_of servoj_parameters = codes "SERVO_J_REPLACE"
name_of servoj_time = codes "SERVOJ_TIME_REPLACE"
name_of servoj_extrapolate_max_time = codes "SERVOJ_EXTRAPOLATE_MAX_TIME_REPLACE"
name_of servoj_decelerate_time = codes "SERVOJ_DECELERATE_TIME_REPLACE"
name_of servoj_hold_velocity_threshold = codes "SERVOJ_HOLD_VELOCITY_THRESHOLD_REPLACE"
name_of servoj_hold_stable_time = codes "SERVOJ_HOLD_STABLE_TIME_REPLACE"
name_of stopj_acc = codes "STOP_J_REPLACE"
name_of pos_zoom_ratio = codes "POS_ZOOM_RATIO_REPLACE"
name_of time_zoom_ratio = codes "TIME_ZOOM_RATIO_REPLACE"
name_of common_zoom_ratio = codes "COMMON_ZOOM_RATIO_REPLACE"
name_of reverse_data_size = codes "REVERSE_DATA_SIZE_REPLACE"
name_of trajectory_data_size = codes "TRAJECTORY_DATA_SIZE_REPLACE"
name_of script_command_data_size = codes "SCRIPT_COMMAND_DATA_SIZE_REPLACE"

-- What stands for it: the driver's address, the field of the configuration with its name, the two
-- arguments of `servoj`, and the constants that the interfaces multiply by and send.
unfoldable pub value_of : Printing → Bytes → Config → Hole → Bytes
unfolding int_to_string
value_of p ip c server_ip = ip
value_of p ip c reverse_port = int_to_string c.reverse_port
value_of p ip c trajectory_port = int_to_string c.trajectory_port
value_of p ip c script_command_port = int_to_string c.script_command_port
value_of p ip c servoj_parameters =
    codes "lookahead_time = "
    ++ (p.shown c.servoj_lookahead_time ++ (codes ", gain=" ++ int_to_string c.servoj_gain))
value_of p ip c servoj_time = p.to_string c.servoj_time
value_of p ip c servoj_extrapolate_max_time = p.to_string c.servoj_extrapolate_max_time
value_of p ip c servoj_decelerate_time = p.to_string c.servoj_decelerate_time
value_of p ip c servoj_hold_velocity_threshold = p.to_string c.servoj_hold_velocity_threshold
value_of p ip c servoj_hold_stable_time = p.to_string c.servoj_hold_stable_time
value_of p ip c stopj_acc = p.to_string c.stopj_acc
value_of p ip c pos_zoom_ratio = int_to_string (pos 1000000)
value_of p ip c time_zoom_ratio = int_to_string (pos 1000)
value_of p ip c common_zoom_ratio = int_to_string (pos 1000000)
value_of p ip c reverse_data_size = int_to_string (pos 8)
value_of p ip c trajectory_data_size = int_to_string (pos 21)
value_of p ip c script_command_data_size = int_to_string (pos 26)

-- Every hole.
abbrev holes : List Hole
holes =
    server_ip ∷ trajectory_port ∷ reverse_port ∷ script_command_port ∷ servoj_parameters
    ∷ servoj_time ∷ servoj_extrapolate_max_time ∷ servoj_decelerate_time
    ∷ servoj_hold_velocity_threshold ∷ servoj_hold_stable_time ∷ pos_zoom_ratio ∷ time_zoom_ratio
    ∷ common_zoom_ratio ∷ reverse_data_size ∷ trajectory_data_size ∷ script_command_data_size
    ∷ stopj_acc ∷ []

name_of-is_plain : (h : Hole) → is_plain (name_of h) ≡ true
unfolding name_of
name_of-is_plain server_ip = refl
name_of-is_plain reverse_port = refl
name_of-is_plain trajectory_port = refl
name_of-is_plain script_command_port = refl
name_of-is_plain servoj_parameters = refl
name_of-is_plain servoj_time = refl
name_of-is_plain servoj_extrapolate_max_time = refl
name_of-is_plain servoj_decelerate_time = refl
name_of-is_plain servoj_hold_velocity_threshold = refl
name_of-is_plain servoj_hold_stable_time = refl
name_of-is_plain stopj_acc = refl
name_of-is_plain pos_zoom_ratio = refl
name_of-is_plain time_zoom_ratio = refl
name_of-is_plain common_zoom_ratio = refl
name_of-is_plain reverse_data_size = refl
name_of-is_plain trajectory_data_size = refl
name_of-is_plain script_command_data_size = refl

pub data Piece : Type 0 where
  text : Bytes → Piece
  hole : Hole → Piece

-- A piece as the script file has it.
abbrev pub written : Piece → Bytes
written (text t) = t
written (hole h) = braced (name_of h)

unfoldable pub source : List Piece → Bytes
source [] = []
source (x ∷ xs) = written x ++ source xs

-- The script that is meant.
unfoldable pub rendered : Printing → Bytes → Config → List Piece → Bytes
unfolding value_of
rendered p ip c [] = []
rendered p ip c (text t ∷ xs) = t ++ rendered p ip c xs
rendered p ip c (hole h ∷ xs) = value_of p ip c h ++ rendered p ip c xs

-- Text without an opening brace.
abbrev pub IsText : Piece → Type 0
IsText (text t) = All (λ x. (123 == x) ≡ false) t
IsText (hole h) = Unit {0}

-- The pieces after a pass for one hole.
unfoldable fill : Hole → Bytes → Piece → Piece
unfolding name_of bytes_eq
fill g by (text t) = text t
fill g by (hole h) = if bytes_eq (name_of g) (name_of h) then text by else hole h

fresh-IsText : (g : Hole) (by : Bytes) → IsFresh (braced (name_of g)) by → IsText (text by)
unfolding braced
fresh-IsText g [] fresh = tt
fresh-IsText g (c ∷ by) fresh = fresh.1

fill-IsText :
    (g : Hole) (by : Bytes) (x : Piece) → IsText (text by) → IsText x → IsText (fill g by x)
unfolding fill
fill-IsText g by (text t) k h = h
fill-IsText g by (hole h) k i = elim (Bool-cases (bytes_eq (name_of g) (name_of h))) [
  | inl same ↦ rw same k
  | inr other ↦ rw other i
]

one_pass-piece :
    (g : Hole) (by : Bytes) (x : Piece) (rest : Bytes)
    → IsText x
    → one_pass_from 0 (braced (name_of g)) by (written x ++ rest)
      ≡ written (fill g by x) ++ one_pass_from 0 (braced (name_of g)) by rest
unfolding fill braced
one_pass-piece g by (text t) rest h =
    one_pass-clean (braced (name_of g)) by t rest (IsClean-without 123 _ t rest h)
one_pass-piece g by (hole h) rest i = elim (Bool-cases (bytes_eq (name_of g) (name_of h))) [
  | inl same ↦
      let one : name_of g ≡ name_of h = (bytes_eq_iff (name_of g) (name_of h)).0 same in
      ap (λ n. one_pass_from 0 (braced (name_of g)) by (braced n ++ rest)) (sym one)
      ∙ one_pass-found 123 (123 ∷ (name_of g ++ (125 ∷ 125 ∷ []))) by rest
      ∙ chosen true (sym same)
  | inr other ↦
      one_pass-clean (braced (name_of g)) by (braced (name_of h)) rest (
        braced-IsClean (name_of g) (name_of h) rest (name_of-is_plain g) (name_of-is_plain h) other)
      ∙ chosen false (sym other)
]
  where
    chosen :
        (b : Bool)
        → b ≡ bytes_eq (name_of g) (name_of h)
        → written (if b then text by else hole h) ++ one_pass_from 0 (braced (name_of g)) by rest
          ≡ written (fill g by (hole h)) ++ one_pass_from 0 (braced (name_of g)) by rest
    chosen b e =
        ap
          (λ x.
            written (if x then text by else hole h) ++ one_pass_from 0 (braced (name_of g)) by rest)
          e

one_pass-source :
    (g : Hole) (by : Bytes) (xs : List Piece)
    → All IsText xs
    → one_pass_from 0 (braced (name_of g)) by (source xs) ≡ source (map (fill g by) xs)
unfolding source one_pass_from
one_pass-source g by [] h = refl
one_pass-source g by (x ∷ xs) (h, hs) =
    one_pass-piece g by x (source xs) h
    ∙ ap (λ s. written (fill g by x) ++ s) (one_pass-source g by xs hs)

map-IsText :
    (g : Hole) (by : Bytes) (xs : List Piece)
    → IsText (text by)
    → All IsText xs
    → All IsText (map (fill g by) xs)
map-IsText g by [] k h = tt
map-IsText g by (x ∷ xs) k (h, hs) = (fill-IsText g by x k h, map-IsText g by xs k hs)

-- One pass for each of some holes.
unfoldable fill_all : (Hole → Bytes) → List Hole → Piece → Piece
unfolding fill
fill_all v [] x = x
fill_all v (g ∷ gs) x = fill_all v gs (fill g (v g) x)

-- The placeholder and the value of a hole.
abbrev parameter : (Hole → Bytes) → Hole → Bytes × Bytes
parameter v g = (braced (name_of g), v g)

map-map : (f g : Piece → Piece) (xs : List Piece) → map f (map g xs) ≡ map (λ x. f (g x)) xs
map-map f g [] = refl
map-map f g (x ∷ xs) = ap (λ ys. f (g x) ∷ ys) (map-map f g xs)

map_id : (xs : List Piece) → map (λ x. x) xs ≡ xs
map_id [] = refl
map_id (x ∷ xs) = ap (λ ys. x ∷ ys) (map_id xs)

passes-source :
    (v : Hole → Bytes) (gs : List Hole) (xs : List Piece)
    → All (λ g. IsFresh (braced (name_of g)) (v g)) gs
    → All IsText xs
    → passes (map (parameter v) gs) (source xs) ≡ source (map (fill_all v gs) xs)
unfolding passes fill_all
passes-source v [] xs f h = ap source (sym (map_id xs))
passes-source v (g ∷ gs) xs (f, fs) h =
    ap (passes (map (parameter v) gs)) (one_pass-source g (v g) xs h)
    ∙ passes-source v gs (map (fill g (v g)) xs) fs
        (map-IsText g (v g) xs (fresh-IsText g (v g) f) h)
    ∙ ap source (map-map (fill_all v gs) (fill g (v g)) xs)

fill_all-text : (v : Hole → Bytes) (gs : List Hole) (t : Bytes) → fill_all v gs (text t) ≡ text t
unfolding fill_all fill
fill_all-text v [] t = refl
fill_all-text v (g ∷ gs) t = fill_all-text v gs t

-- Every hole has a parameter.
fill_all-hole : (v : Hole → Bytes) (h : Hole) → fill_all v holes (hole h) ≡ text (v h)
unfolding fill_all fill name_of bytes_eq
fill_all-hole v server_ip = refl
fill_all-hole v reverse_port = refl
fill_all-hole v trajectory_port = refl
fill_all-hole v script_command_port = refl
fill_all-hole v servoj_parameters = refl
fill_all-hole v servoj_time = refl
fill_all-hole v servoj_extrapolate_max_time = refl
fill_all-hole v servoj_decelerate_time = refl
fill_all-hole v servoj_hold_velocity_threshold = refl
fill_all-hole v servoj_hold_stable_time = refl
fill_all-hole v stopj_acc = refl
fill_all-hole v pos_zoom_ratio = refl
fill_all-hole v time_zoom_ratio = refl
fill_all-hole v common_zoom_ratio = refl
fill_all-hole v reverse_data_size = refl
fill_all-hole v trajectory_data_size = refl
fill_all-hole v script_command_data_size = refl

source-rendered :
    (p : Printing) (ip : Bytes) (c : Config) (xs : List Piece)
    → source (map (fill_all (value_of p ip c) holes) xs) ≡ rendered p ip c xs
unfolding source rendered
source-rendered p ip c [] = refl
source-rendered p ip c (text t ∷ xs) =
    rw (fill_all-text (value_of p ip c) holes t, source-rendered p ip c xs) refl
source-rendered p ip c (hole h ∷ xs) =
    rw (fill_all-hole (value_of p ip c) h, source-rendered p ip c xs) refl

parameters-holes :
    (p : Printing) (ip : Bytes) (c : Config)
    → parameters p ip c ≡ map (parameter (value_of p ip c)) holes
unfolding parameters value_of name_of braced
parameters-holes p ip c = refl

All-map :
    (P : Bytes × Bytes → Type 0) (f : Hole → Bytes × Bytes) (gs : List Hole)
    → All P (map f gs)
    → All (λ g. P (f g)) gs
All-map P f [] h = tt
All-map P f (g ∷ gs) (h, hs) = (h, All-map P f gs hs)

-- A script that is text without opening braces and placeholders, where every text that is put in has a
-- first byte that is not in its placeholder, and no opening brace: `scriptParamWrite` ends, and each
-- placeholder has become what the table `value_of` gives for it, with all other text as it was.
pub script_param_write-rendered :
    (p : Printing) (ip : Bytes) (c : Config) (xs : List Piece)
    → All (λ e. IsFresh e.0 e.1) (parameters p ip c)
    → All IsText xs
    → script_param_write p ip c (source xs) ≡ some (rendered p ip c xs)
script_param_write-rendered p ip c xs fresh h =
    let v = value_of p ip c in
    let fresh_holes =
      All-map (λ e. IsFresh e.0 e.1) (parameter v) holes
        (subst (All (λ e. IsFresh e.0 e.1)) (parameters-holes p ip c) fresh) in
    script_param_write-passes p ip c (source xs) fresh
    ∙ ap some (
        ap (λ ps. passes ps (source xs)) (parameters-holes p ip c)
        ∙ passes-source v holes xs fresh_holes h
        ∙ source-rendered p ip c xs)
