-- ===== src/Composer/Tests.antt =====
-- The order of concrete services.
use space_elevator.Base.{
  ℕ, ◌≤◌, ◌<◌, ◌≡◌, refl, subst, inl, inr, String, str_eq, true, none, some, List, [], ◌∷◌, length,
  sift, if◌then◌else◌, Dict, lookup, arith, eq_iff, Bool-cases,
}
use space_elevator.Composer.Topological.{
  mem, depends_on, visit, visit_all, names_of, topological_order,
}
use space_elevator.Composer.Topological.Before.{Ordered, topological_order-Ordered}
use space_elevator.Composer.Topological.Fuel.{topological_order-returns}

abbrev services : Dict (List String)
services = ("web", "db" ∷ "cache" ∷ []) ∷ ("db", []) ∷ []

abbrev rank : String → ℕ
rank name = if str_eq name "db" then 0 else 1

db_first : topological_order services ≡ some ("db" ∷ "web" ∷ [])
unfolding topological_order visit visit_all mem depends_on lookup sift
db_first = refl

of_web : (d : String) → mem d (depends_on services "web") ≡ true → rank d < rank "web"
unfolding mem depends_on lookup sift
of_web d h = ground (arith, eq_iff "db" d, eq_iff d "db")

of_db : (d : String) → mem d (depends_on services "db") ≡ true → rank d < rank "db"
unfolding mem depends_on lookup sift
of_db d h = cc

of_none :
    (x d : String)
    → lookup x services ≡ none
    → mem d (depends_on services x) ≡ true
    → rank d < rank x
unfolding mem depends_on sift
of_none x d e h = absurd (ground arith)

acyclic : (x d : String) → mem d (depends_on services x) ≡ true → rank d < rank x
unfolding mem depends_on lookup sift
acyclic x d h = elim (Bool-cases (str_eq "web" x)) [
  | inl e ↦
      subst (λ y. mem d (depends_on services y) ≡ true → rank d < rank y) ((eq_iff "web" x).0 e)
        (of_web d) h
  | inr e ↦ elim (Bool-cases (str_eq "db" x)) [
    | inl f ↦
        subst (λ y. mem d (depends_on services y) ≡ true → rank d < rank y) ((eq_iff "db" x).0 f)
          (of_db d) h
    | inr f ↦ of_none x d (rw (e, f) refl) h
  ]
]

small : (x : String) → mem x (names_of services) ≡ true → rank x ≤ length services
small x h = ground arith

topological_order-Ordered_example :
    (order : List String) × (topological_order services ≡ some order)
    × ((x : String) → mem x (names_of services) ≡ true → mem x order ≡ true)
    × Ordered services [] order
topological_order-Ordered_example = topological_order-Ordered services rank acyclic small

abbrev looped : Dict (List String)
looped = ("web", "db" ∷ []) ∷ ("db", "web" ∷ []) ∷ []

topological_order-returns_example : (order : List String) × (topological_order looped ≡ some order)
topological_order-returns_example = topological_order-returns looped
