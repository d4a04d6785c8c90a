-- ===== src/Composer/Topological/Fuel.antt =====
-- The depth of the recursion is at most the number of services, with cycles or without.
use space_elevator.Base.{
  ℕ, zero, suc, ◌+◌, ◌<◌, ◌≤◌, ◌≡◌, refl, ◌∙◌, inl, inr, String, str_eq, Bool, true, false, not,
  ◌||◌, Option, some, List, [], ◌∷◌, length, sift, tally, tally-le-length, Dict, lookup, arith,
  eq_iff, str_eq_refl, Bool-cases,
}
use space_elevator.Composer.Topological.{
  mem, Visit, is_service, depends_on, visit_all, leave, visit, names_of, no_visit,
  topological_order,
}
use space_elevator.Composer.Topological.Before.{mem-sift}

-- The names that are not on the path.
abbrev free : List String → List String → ℕ
free temp names = tally (λ x. not (mem x temp)) names

free_same :
    (s t names : List String) → ((x : String) → mem x s ≡ mem x t) → free s names ≡ free t names
unfolding tally
free_same s t [] h = refl
free_same s t (x ∷ xs) h = ground (arith, h x, free_same s t xs h)

free-le : (name : String) (temp names : List String) → free (name ∷ temp) names ≤ free temp names
unfolding tally mem
free-le name temp [] = omega arith
free-le name temp (x ∷ xs) = ground (arith, free-le name temp xs)

free-less :
    (name : String) (temp names : List String)
    → mem name names ≡ true
    → mem name temp ≡ false
    → free (name ∷ temp) names < free temp names
unfolding tally mem
free-less name temp [] m f = cc
free-less name temp (x ∷ xs) m f =
    ground (arith, free-less name temp xs, free-le name temp xs, eq_iff x name, eq_iff name x)

is_service-mem :
    (services : Dict (List String)) (d : String)
    → is_service services d ≡ true
    → mem d (names_of services) ≡ true
unfolding lookup mem
is_service-mem [] d h = ground arith
is_service-mem ((j, ds) ∷ services) d h = ground (arith, is_service-mem services d)

mem-sift-holds :
    (p : String → Bool) (d : String) (xs : List String) → mem d (sift p xs) ≡ true → p d ≡ true
unfolding mem sift
mem-sift-holds p d [] h = cc
mem-sift-holds p d (x ∷ xs) h = elim (Bool-cases (p x)) [
  | inl e ↦ elim (Bool-cases (str_eq x d)) [
    | inl own ↦ rw ((eq_iff x d).0 own) at e
    | inr other ↦ mem-sift-holds p d xs (ground (arith, h, e, other))
  ]
  | inr e ↦ mem-sift-holds p d xs (ground (arith, h, e))
]

module _ (services : Dict (List String)) where
  depends_on-mem :
      (x d : String) → mem d (depends_on services x) ≡ true → mem d (names_of services) ≡ true
  unfolding depends_on
  depends_on-mem x d h = is_service-mem services d (mem-sift-holds (is_service services) d _ h)

  -- A result, with the path that it was called with.
  abbrev Total : Visit → Option Visit → Type 0
  Total v o = (w : Visit) × (o ≡ some w) × ((t : String) → mem t w.temp ≡ mem t v.temp)

  visit_all-Total :
      (f : String → Visit → Option Visit) (n : ℕ) (names : List String) (v : Visit)
      → ((d : String) (u : Visit)
          → mem d (names_of services) ≡ true
          → free u.temp (names_of services) < n
          → Total u (f d u))
      → ((d : String) → mem d names ≡ true → mem d (names_of services) ≡ true)
      → free v.temp (names_of services) < n
      → Total v (visit_all f names v)
  unfolding visit_all mem
  visit_all-Total f n [] v spec sub room = (v, refl, λ t. refl)
  visit_all-Total f n (name ∷ names) v spec sub room =
      let (u, e, same) = spec name v (sub name (ground (arith, str_eq_refl name))) room in
      let (w, e', same') =
        visit_all-Total f n names u spec (λ d m. sub d (ground arith))
          (omega (arith, room, free_same u.temp v.temp (names_of services) same)) in
      (w, rw e e', λ t. same' t ∙ same t)

  visit-Total :
      (n : ℕ) (name : String) (v : Visit)
      → mem name (names_of services) ≡ true
      → free v.temp (names_of services) < n
      → Total v (visit n services name v)
  unfolding visit mem
  visit-Total zero name v m room = absurd (omega arith)
  visit-Total (suc n) name v m room = elim (Bool-cases (mem name v.visited || mem name v.temp)) [
    | inl seen ↦ (v, rw seen refl, λ t. refl)
    | inr fresh ↦
        let unused : mem name v.temp ≡ false = ground arith in
        let v₁ : Visit = record v { temp = name ∷ v.temp } in
        let (w, e, same) =
          visit_all-Total (visit n services) n (depends_on services name) v₁
            (λ d u k r. visit-Total n d u k r) (depends_on-mem name)
            (omega (arith, free-less name v.temp (names_of services) m unused, room)) in
        (
          leave name w,
          rw (fresh, e) refl,
          λ t. ground (arith, mem-sift t name w.temp, same t, eq_iff t name, eq_iff name t),
        )
  ]

length-names : (services : Dict (List String)) → length (names_of services) ≡ length services
length-names [] = refl
length-names (s ∷ services) = omega (arith, length-names services)

-- Whatever the services depend on, cycles included, TopologicalOrder returns: as many nested calls as
-- there are services, and one more, are enough.
pub topological_order-returns :
    (services : Dict (List String))
    → (order : List String) × (topological_order services ≡ some order)
unfolding topological_order mem
topological_order-returns services =
    let names = names_of services in
    let (v, e, same) =
      visit_all-Total services (visit (length services + 1) services) (length services + 1) names
        no_visit (λ d u m r. visit-Total services (length services + 1) d u m r) (λ d m. m)
        (omega (arith, tally-le-length (λ x. not (mem x [])) names, length-names services)) in
    (v.order, rw e refl)
