-- ===== src/Registry/Tests.antt =====
-- Tests of the registry, with numbers for the factories.
use elite_robots_cs_sdk.Shared.{
  ℕ, ◌≡◌, refl, List, [], ◌∷◌, Bytes, false, none, some, codes, bytes_eq,
}
use elite_robots_cs_sdk.Rtsi.Table.{find, insert}
use elite_robots_cs_sdk.Registry.{
  register_class, get_factory, new_class_loader, load_lib, create_unique_instance,
}
use elite_robots_cs_sdk.Registry.First.{
  IsName, register_all, first_of, is_none, get_factory-first_of,
}

-- Two plugins of one base class, and one of them a second time.
abbrev plugins : List (Bytes × Bytes × ℕ)
plugins =
    (codes "Kdl", codes "Kinematics", 1)
    ∷ (codes "Eigen", codes "PoseAlgebra", 2)
    ∷ (codes "Kdl", codes "Kinematics", 3)
    ∷ []

kdl : IsName (codes "Kdl")
kdl = (refl, (refl, (refl, tt)))

get_factory-first_of_example :
    (get_factory (codes "Kdl") (codes "Kinematics") (register_all plugins [])
      ≡ first_of (codes "Kdl") (codes "Kinematics") plugins)
    × ((register_class (codes "Kdl") (codes "Kinematics") 4 (register_all plugins [])).0
        ≡ is_none (first_of (codes "Kdl") (codes "Kinematics") plugins))
get_factory-first_of_example =
    get_factory-first_of (codes "Kdl") (codes "Kinematics") 4 plugins kdl
      (kdl, ((refl, (refl, (refl, (refl, (refl, tt))))), (kdl, tt)))

keeps_first : first_of (codes "Kdl") (codes "Kinematics") plugins ≡ some 1
unfolding first_of bytes_eq
keeps_first = refl

-- A separator in a name makes two classes one.
clash :
    get_factory {F = ℕ}
      (codes "a")
      (31 ∷ codes "b")
      (register_class (97 ∷ 31 ∷ []) (codes "b") 7 []).1
    ≡ some 7
unfolding get_factory register_class find insert bytes_eq
clash = refl

not_loaded :
    create_unique_instance
      (codes "Kdl")
      (codes "Kinematics")
      (register_all plugins [])
      (load_lib (λ p. false) (new_class_loader (codes "lib.so"))).1
    ≡ none
unfolding create_unique_instance load_lib new_class_loader
not_loaded = refl
