-- ===== src/Store/Operations/Newest.antt =====
-- The history of an app after a restart: in the same order as before.
use space_elevator.Base.{
  ◌+◌, ℕ, ◌≡◌, refl, ap, ◌∙◌, String, Bool, true, List, [], ◌∷◌, arith, sift, map, str_eq, tally,
  ◌<◌, leb, if◌then◌else◌, Bool-cases, inl, inr,
}
use space_elevator.Store.Rows.{Operation, Db}
use space_elevator.Store.Operations.{
  any_active, insert_newest, newest_after, newest_first, interrupted_row, list_operations,
  interrupt_active_operations, active_of,
}
use space_elevator.Store.Operations.Exclusive.{IsValid}
use space_elevator.Store.Operations.Restart.{interrupt_active_operations-rows, tally-sift}

module _ (f : Operation → Operation)
    (time : (o : Operation) → (f o).created_at ≡ o.created_at) where
  leb-time :
      (x o : Operation) → leb (f x).created_at (f o).created_at ≡ leb x.created_at o.created_at
  leb-time x o = ap (λ t. leb t (f o).created_at) (time x) ∙ ap (λ t. leb x.created_at t) (time o)

  insert_newest-map :
      (o : Operation) (xs : List Operation)
      → insert_newest (f o) (map f xs) ≡ map f (insert_newest o xs)
  unfolding insert_newest
  insert_newest-map o [] = refl
  insert_newest-map o (x ∷ xs) = elim (Bool-cases (leb x.created_at o.created_at)) [
    | inl e ↦ let e' = leb-time x o ∙ e in rw (e', e) refl
    | inr e ↦
        let e' = leb-time x o ∙ e in rw (e', e) (ap (λ rest. f x ∷ rest) (insert_newest-map o xs))
  ]

  newest_after-map :
      (done xs : List Operation)
      → newest_after (map f done) (map f xs) ≡ map f (newest_after done xs)
  unfolding newest_after
  newest_after-map done [] = refl
  newest_after-map done (o ∷ os) =
      ap (λ x. newest_after x (map f os)) (insert_newest-map o done)
      ∙ newest_after-map (insert_newest o done) os

  sift-map :
      (p : Operation → Bool)
      → ((o : Operation) → p (f o) ≡ p o)
      → (xs : List Operation) → sift p (map f xs) ≡ map f (sift p xs)
  unfolding sift
  sift-map p same [] = refl
  sift-map p same (x ∷ xs) = elim (Bool-cases (p x)) [
    | inl e ↦ rw (same x, e) (ap (λ rest. f x ∷ rest) (sift-map p same xs))
    | inr e ↦ rw (same x, e) (sift-map p same xs)
  ]

abbrev pub interrupted : ℕ → Operation → Operation
interrupted now o = if any_active o then interrupted_row now o else o

module _ (now : ℕ) where
  interrupted-time : (o : Operation) → (interrupted now o).created_at ≡ o.created_at
  unfolding interrupted_row
  interrupted-time o = elim (Bool-cases (any_active o)) [ inl e ↦ rw e refl | inr e ↦ rw e refl ]

  interrupted-owner :
      (id : String) (o : Operation) → str_eq (interrupted now o).app_id id ≡ str_eq o.app_id id
  unfolding interrupted_row
  interrupted-owner id o = elim (Bool-cases (any_active o)) [
    | inl e ↦ rw e refl
    | inr e ↦ rw e refl
  ]

  pub list_operations-interrupted :
      (id : String) (db : Db)
      → IsValid db
      → list_operations id (interrupt_active_operations now db)
        ≡ map (interrupted now) (list_operations id db)
  unfolding list_operations newest_first
  list_operations-interrupted id db v =
      ap (λ xs. newest_after [] (sift (λ o. str_eq o.app_id id) xs))
        (interrupt_active_operations-rows now db v).0
      ∙ ap (λ xs. newest_after [] xs)
          (sift-map (interrupted now) interrupted-time (λ o. str_eq o.app_id id)
            (interrupted-owner id) db.operations)
      ∙ newest_after-map (interrupted now) interrupted-time []
          (sift (λ o. str_eq o.app_id id) db.operations)

tally-insert_newest :
    (q : Operation → Bool) (o : Operation) (xs : List Operation)
    → tally q (insert_newest o xs) ≡ tally q (o ∷ xs)
unfolding insert_newest tally
tally-insert_newest q o [] = refl
tally-insert_newest q o (x ∷ xs) = ground (arith, tally-insert_newest q o xs)

tally-newest_after :
    (q : Operation → Bool) (done xs : List Operation)
    → tally q (newest_after done xs) ≡ tally q done + tally q xs
unfolding newest_after tally
tally-newest_after q done [] = omega arith
tally-newest_after q done (o ∷ os) =
    ground (arith, tally-newest_after q (insert_newest o done) os, tally-insert_newest q o done)

-- An app whose newest operation is active owns one.
pub list_operations-owns :
    (id : String) (db : Db) (o : Operation) (os : List Operation)
    → list_operations id db ≡ o ∷ os
    → any_active o ≡ true
    → 0 < tally (active_of id) db.operations
unfolding list_operations newest_first tally
list_operations-owns id db o os e h =
    let owned = λ (x : Operation). str_eq x.app_id id in
    let count = ap (λ xs. tally any_active xs) e in
    ground (
      arith,
      count,
      tally-newest_after any_active [] (sift owned db.operations),
      tally-sift owned any_active db.operations,
    )
