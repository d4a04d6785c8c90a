-- ===== src/Composer/Topological.antt =====
-- parser.go: TopologicalOrder. The services are an association list from names to DependsOn, in the
-- order in which the range over the map meets them; `visited` and `temp` are sets of names.
pub mod Before
pub mod Fuel
use mathlib.Core.Option
use space_elevator.Base.{
  ℕ, zero, suc, ◌+◌, String, str_eq, Bool, true, false, not, ◌&&◌, ◌||◌, Option, none, some, List,
  [], ◌∷◌, ◌++◌, map, length, sift, if◌then◌else◌, Dict, lookup,
}

unfoldable pub mem : String → List String → Bool
mem x [] = false
mem x (y ∷ ys) = str_eq y x || mem x ys

pub record Visit : Type 0 where
  pub visited : List String
  pub temp : List String
  pub order : List String

abbrev found : Option (List String) → List String
found none = []
found (some ds) = ds

abbrev pub is_service : Dict (List String) → String → Bool
is_service services name = elim (lookup name services) [ none ↦ false | some ds ↦ true ]

-- The dependencies that are services themselves.
unfoldable pub depends_on : Dict (List String) → String → List String
depends_on services name = sift (is_service services) (found (lookup name services))

abbrev pub and_then : Option Visit → (Visit → Option Visit) → Option Visit
and_then none k = none
and_then (some v) k = k v

unfoldable pub visit_all : (String → Visit → Option Visit) → List String → Visit → Option Visit
visit_all visit [] v = some v
visit_all visit (name ∷ names) v = and_then (visit name v) (λ v'. visit_all visit names v')

abbrev pub leave : String → Visit → Visit
leave name v = record {
  visited = name ∷ v.visited;
  temp = sift (λ t. not (str_eq t name)) v.temp;
  order = v.order ++ name ∷ [];
}

-- `visit`, with the depth of the recursion as fuel
unfoldable pub visit : ℕ → Dict (List String) → String → Visit → Option Visit
unfolding mem depends_on visit_all
visit zero services name v = none
visit (suc n) services name v =
    let inner =
      visit_all (visit n services) (depends_on services name) (record v { temp = name ∷ v.temp }) in
    if mem name v.visited || mem name v.temp
    then some v
    else and_then inner (λ v'. some (leave name v'))

abbrev pub names_of : Dict (List String) → List String
names_of services = map (λ (e : String × List String). e.0) services

abbrev pub no_visit : Visit
no_visit = record { visited = []; temp = []; order = [] }

unfoldable pub topological_order : Dict (List String) → Option (List String)
unfolding visit visit_all
topological_order services =
    Option.map (λ (v : Visit). v.order)
      (visit_all (visit (length services + 1) services) (names_of services) no_visit)
