-- ===== src/Registry.antt =====
-- The registry of plugin classes (source/ClassLoader/ClassRegistry.cpp). A factory is a pointer that the registry
-- does not look at, and its type is an argument.
pub mod First
mod Tests
use elite_robots_cs_sdk.Shared.{
  List, ◌∷◌, ◌++◌, Bytes, Bool, true, false, Option, none, some, if◌then◌else◌,
}
use elite_robots_cs_sdk.Rtsi.Table.{find, insert}

-- The names with the unit separator between them.
unfoldable pub make_class_key : Bytes → Bytes → Bytes
make_class_key derived base = derived ++ (31 ∷ base)

module _ {ℓ} {F : Type ℓ} where
  -- The result says whether the class is new.
  unfoldable pub register_class : Bytes → Bytes → F → List (Bytes × F) → Bool × List (Bytes × F)
  unfolding make_class_key find insert
  register_class derived base factory factories =
      let key = make_class_key derived base in
      (elim (find key factories) [ none ↦ true | some f ↦ false ], insert key factory factories)

  unfoldable pub get_factory : Bytes → Bytes → List (Bytes × F) → Option F
  unfolding make_class_key find
  get_factory derived base factories = find (make_class_key derived base) factories

-- ClassLoader: the path of its library, and whether that has been loaded.
pub record ClassLoader : Type 0 where
  pub lib_path : Bytes
  pub lib_loaded : Bool

unfoldable pub new_class_loader : Bytes → ClassLoader
new_class_loader lib_path = record { lib_path = lib_path; lib_loaded = false }

-- `loaded` says how SharedLibrary loads a path.
unfoldable pub load_lib : (Bytes → Bool) → ClassLoader → Bool × ClassLoader
load_lib loaded l = (loaded l.lib_path, record l { lib_loaded = loaded l.lib_path })

module _ {ℓ} {F : Type ℓ} where
  -- `createUniqueInstance` calls the factory that it finds. A library registers its classes while it is
  -- loaded.
  unfoldable pub create_unique_instance : Bytes → Bytes → List (Bytes × F) → ClassLoader → Option F
  unfolding get_factory
  create_unique_instance derived base factories l =
      let factory = get_factory derived base factories in if l.lib_loaded then factory else none
