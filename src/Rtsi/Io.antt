-- ===== src/Rtsi/Io.antt =====
-- RtsiIOInterface (source/Rtsi/RtsiIOInterface.cpp, include/Rtsi/RtsiIOInterface.hpp): the two recipes,
-- the calls that write the input recipe, the receive thread and the life of the connection.
-- RtsiClientInterface passes each call on to the client.
pub mod Getters
pub mod Setters
pub mod Life
pub mod Files
pub mod Reading
pub mod Writing
mod Tests
use elite_robots_cs_sdk.Shared.{
  ℕ, List, [], ◌∷◌, Bytes, Bool, true, false, ◌&&◌, Option, none, some, Result, ok, ◌>>=◌,
  if◌then◌else◌,
}
use elite_robots_cs_sdk.Rtsi.Value.{Kind, Value, Double, Arg}
use elite_robots_cs_sdk.Rtsi.Recipe.{Recipe, get_value, set_value}
use elite_robots_cs_sdk.Rtsi.Client.Monad.{Client}
use elite_robots_cs_sdk.Rtsi.Client.Requests.{Words4, is_connected, is_started}

-- `recv_thread_`: null, a thread that goes round its loop, one that has left it, one that was joined.
pub data Thread : Type 0 where
  absent running finished joined : Thread

-- `target_frequency` is the bit pattern of the double.
pub record Interface : Type 0 where
  pub client : Client
  pub input_new_cmd : Bool
  pub input_recipe_string : List Bytes
  pub output_recipe_string : List Bytes
  pub target_frequency : ℕ
  pub input_recipe : Option Recipe
  pub output_recipe : Option Recipe
  pub recv_thread : Thread
  pub is_recv_thread_alive : Bool
  pub controller_version : Words4

-- `isConnected` and `isStarted`.
unfoldable pub is_io_connected : Interface → Bool
unfolding is_connected
is_io_connected s = s.is_recv_thread_alive && is_connected s.client

unfoldable pub is_io_started : Interface → Bool
unfolding is_started
is_io_started s = s.is_recv_thread_alive && is_started s.client

-- `getRecipeValue<T>`: `none` is the result `false`.
unfoldable pub get_recipe_value : Kind → Bytes → Interface → Result (Option Value)
unfolding get_value
get_recipe_value k name s = elim s.output_recipe [ none ↦ ok none | some r ↦ get_value k r name ]

abbrev pub marked : Interface → Result (Recipe × Bool) → Result (Interface × Bool)
marked s result = do
  (r, done) ← result
  ok (record s { input_recipe = some r; input_new_cmd = true }, done)

-- `setInputRecipeValue`. The flag is set also where the name is not in the recipe.
unfoldable pub set_input_recipe_value : Double → Bytes → Arg → Interface → Result (Interface × Bool)
unfolding set_value
set_input_recipe_value d name arg s = elim s.input_recipe [
  | none ↦ ok (s, false)
  | some r ↦ marked s (set_value d r name arg)
]

-- A row of `if (!setInputRecipeValue(name, value)) return false;`, and `return true` behind it.
unfoldable pub set_all : Double → List (Bytes × Arg) → Interface → Result (Interface × Bool)
unfolding set_input_recipe_value
set_all d [] s = ok (s, true)
set_all d ((name, arg) ∷ later) s = do
  (t, done) ← set_input_recipe_value d name arg s
  if done then set_all d later t else ok (t, false)
