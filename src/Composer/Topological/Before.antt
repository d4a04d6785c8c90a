-- ===== src/Composer/Topological/Before.antt =====
-- Where the dependencies have no cycle, every service stands behind those that it depends on.
use mathlib.Core.List.{append-nil, append_assoc}
use space_elevator.Base.{
  ℕ, zero, suc, ◌+◌, ◌<◌, ◌≤◌, ◌≡◌, refl, ◌∙◌, sym, inl, inr, String, str_eq, true, not, ◌&&◌, ◌||◌,
  Option, some, List, [], ◌∷◌, ◌++◌, length, sift, Dict, arith, eq_iff, str_eq_refl, Bool-cases,
}
use space_elevator.Composer.Topological.{
  mem, Visit, depends_on, visit_all, leave, visit, names_of, no_visit, topological_order,
}

pub mem-append : (x y : String) (ys : List String) → mem x (ys ++ y ∷ []) ≡ mem x ys || str_eq y x
unfolding mem
mem-append x y [] = ground arith
mem-append x y (z ∷ zs) = ground (arith, mem-append x y zs)

pub mem-sift :
    (x name : String) (ys : List String)
    → mem x (sift (λ t. not (str_eq t name)) ys) ≡ not (str_eq x name) && mem x ys
unfolding mem sift
mem-sift x name [] = ground arith
mem-sift x name (y ∷ ys) =
    ground (arith, mem-sift x name ys, eq_iff y name, eq_iff y x, eq_iff x name)

-- Each name of `xs` stands behind its dependencies, where `done` stands in front of all.
abbrev pub Ordered : Dict (List String) → List String → List String → Type 0
Ordered services done [] = Unit
Ordered services done (x ∷ xs) =
    ((d : String) → mem d (depends_on services x) ≡ true → mem d done ≡ true)
    × Ordered services (done ++ x ∷ []) xs

mem-appended : (x : String) (xs ys : List String) → mem x (xs ++ ys) ≡ mem x xs || mem x ys
unfolding mem
mem-appended x [] ys = refl
mem-appended x (z ∷ zs) ys = ground (arith, mem-appended x zs ys)

Ordered-append :
    (services : Dict (List String)) (done xs : List String) (x : String)
    → Ordered services done xs
    → ((d : String) → mem d (depends_on services x) ≡ true → mem d (done ++ xs) ≡ true)
    → Ordered services done (xs ++ x ∷ [])
Ordered-append services done [] x h k = (λ d e. rw (append-nil done) at (k d e), tt)
Ordered-append services done (y ∷ ys) x h k = (
  h.0,
  Ordered-append services (done ++ y ∷ []) ys x h.1
      (λ d e. rw (append_assoc done (y ∷ []) ys) (k d e)),
)

module _ (services : Dict (List String)) (rank : String → ℕ) where
  record Good (v : Visit) : Type 0 where
    same : (x : String) → mem x v.visited ≡ mem x v.order
    ordered : Ordered services [] v.order

  record Step (names : List String) (v v' : Visit) : Type 0 where
    good : Good v'
    temp : (t : String) → mem t v'.temp ≡ mem t v.temp
    grows : (x : String) → mem x v.visited ≡ true → mem x v'.visited ≡ true
    done : (x : String) → mem x names ≡ true → mem x v'.visited ≡ true

  -- Every name on the path is above `name`.
  abbrev Low : String → Visit → Type 0
  Low name v = (t : String) → mem t v.temp ≡ true → rank name < rank t

  abbrev Reached : List String → Visit → Option Visit → Type 0
  Reached names v o = (v' : Visit) × (o ≡ some v') × Step names v v'

  visit_all-Reached :
      (f : String → Visit → Option Visit) (names : List String) (v : Visit)
      → ((d : String) (u : Visit)
          → mem d names ≡ true
          → Good u
          → Low d u
          → Reached (d ∷ []) u (f d u))
      → Good v
      → ((d : String) → mem d names ≡ true → Low d v)
      → Reached names v (visit_all f names v)
  unfolding visit_all mem
  visit_all-Reached f [] v spec g low =
      (v, refl, record { good = g; temp = λ t. refl; grows = λ x h. h; done = λ x h. ground arith })
  visit_all-Reached f (name ∷ names) v spec g low =
      let here : mem name (name ∷ names) ≡ true = ground (arith, str_eq_refl name) in
      let (u, e, s) = spec name v here g (low name here) in
      let (w, e', s') =
        visit_all-Reached f names u (λ d x m. spec d x (ground arith)) s.good
          (λ d m t h. low d (ground arith) t (sym (s.temp t) ∙ h)) in
      (
        w,
        rw e e',
        record {
          good = s'.good;
          temp = λ t. s'.temp t ∙ s.temp t;
          grows = λ x h. s'.grows x (s.grows x h);
          done = λ x h. elim (Bool-cases (str_eq name x)) [
            | inl own ↦ s'.grows x (s.done x (rw own refl))
            | inr other ↦ s'.done x (ground arith)
          ];
        },
      )

  -- On the path through `name`, what lies below `name` is still below all.
  below :
      (name d : String) (v : Visit) (t : String)
      → rank d < rank name
      → Low name v
      → str_eq name t || mem t v.temp ≡ true
      → rank d < rank t
  below name d v t less low k = elim (Bool-cases (str_eq name t)) [
    | inl e ↦ rw ((eq_iff name t).0 e) at less
    | inr e ↦ omega (arith, less, low t (ground arith))
  ]

  -- What is added when `name` is left, its dependencies being done.
  leave-Good :
      (name : String) (v : Visit)
      → Good v
      → ((d : String) → mem d (depends_on services name) ≡ true → mem d v.visited ≡ true)
      → Good (leave name v)
  unfolding mem
  leave-Good name v g h = record {
    same = λ x. ground (arith, g.same x, mem-append x name v.order);
    ordered = Ordered-append services [] v.order name g.ordered (λ d e. sym (g.same d) ∙ h d e);
  }

  module _ (acyclic : (x d : String) → mem d (depends_on services x) ≡ true → rank d < rank x) where
    visit-Reached :
        (n : ℕ) (name : String) (v : Visit)
        → rank name < n
        → Good v
        → Low name v
        → Reached (name ∷ []) v (visit n services name v)
    unfolding visit mem
    visit-Reached zero name v h g low = absurd (omega arith)
    visit-Reached (suc n) name v h g low = elim (Bool-cases (mem name v.visited)) [
      | inl seen ↦ (
        v,
        rw seen refl,
        record {
          good = g;
          temp = λ t. refl;
          grows = λ x k. k;
          done = λ x k. ground (arith, eq_iff name x);
        },
      )
      | inr unseen ↦ elim (Bool-cases (mem name v.temp)) [
        | inl on_path ↦ absurd (omega (arith, low name on_path))
        | inr fresh ↦
            let v₁ : Visit = record v { temp = name ∷ v.temp } in
            let deps = depends_on services name in
            let (w, e, s) =
              visit_all-Reached (visit n services) deps v₁
                (λ d u m gu lu. visit-Reached n d u (omega (arith, acyclic name d m, h)) gu lu)
                (record { same = g.same; ordered = g.ordered })
                (λ d m t k. below name d v t (acyclic name d m) low k) in
            (
              leave name w,
              rw (unseen, fresh, e) refl,
              record {
                good = leave-Good name w s.good s.done;
                temp = λ t.
                    ground (arith, mem-sift t name w.temp, s.temp t, eq_iff t name, eq_iff name t);
                grows = λ x k. ground (arith, s.grows x k);
                done = λ x k. ground arith;
              },
            )
      ]
    ]

-- Where the dependencies have no cycle, that is, where the services can be numbered below their count
-- so that each has a number above those of the services that it depends on, TopologicalOrder returns
-- an order. It holds every service, and every name in it stands behind the services that it depends on.
pub topological_order-Ordered :
    (services : Dict (List String)) (rank : String → ℕ)
    → ((x d : String) → mem d (depends_on services x) ≡ true → rank d < rank x)
    → ((x : String) → mem x (names_of services) ≡ true → rank x ≤ length services)
    → (order : List String) × (topological_order services ≡ some order)
      × ((x : String) → mem x (names_of services) ≡ true → mem x order ≡ true)
      × Ordered services [] order
unfolding topological_order mem
topological_order-Ordered services rank acyclic small =
    let start : Good services rank no_visit = record { same = λ x. refl; ordered = tt } in
    let (v, e, s) =
      visit_all-Reached services rank (visit (length services + 1) services) (names_of services)
        no_visit
        (λ d u m g low.
          visit-Reached services rank acyclic (length services + 1) d u (omega (arith, small d m)) g
            low)
        start (λ d m t k. absurd (empty_path t k)) in
    (v.order, rw e refl, λ x m. sym (s.good.same x) ∙ s.done x m, s.good.ordered)
  where
    empty_path : (t : String) → mem t [] ≡ true → ⊥
    empty_path t k = cc
