-- ===== src/Deployer/Program/Rules.antt =====
-- What a program ensures, when it goes on and when it leaves, with a rule for each way to build one.
use space_elevator.Base.{◌≡◌, refl, Bool, true, false, if◌then◌else◌, some, none, Bytes}
use space_elevator.Deployer.Program.{
  Answer, Outcome, next, leave, Program, after, ◌>>◌, attempt, attempt_partly, assign,
}

module _ {S X : Type 0} where
  abbrev pub Post : (S → Type 0) → (X → S → Type 0) → Outcome X × S → Type 0
  Post Q E (next, w) = Q w
  Post Q E (leave e, w) = E e w

  -- From `P` the program goes on with `Q`, or leaves with `E`.
  pub record Ensures (P Q : S → Type 0) (E : X → S → Type 0) (m : Program S X) : Type 0 where
    pub at : (w : S) → P w → Post Q E (m w)

module _ {S X : Type 0} {P Q : S → Type 0} {E : X → S → Type 0} where
  pub Ensures-attempt :
      (answer : Answer) (exit : Bytes → X) (f : S → S)
      → ((w : S) → P w → Q (f w))
      → ((w : S) (t : Bytes) → P w → E (exit t) w)
      → Ensures P Q E (attempt answer exit f)
  unfolding attempt
  Ensures-attempt none exit f go out = record { at = go }
  Ensures-attempt (some t) exit f go out = record { at = λ w h. out w t h }

  pub Ensures-attempt_partly :
      (answer : Answer) (exit : Bytes → X) (f g : S → S)
      → ((w : S) → P w → Q (f w))
      → ((w : S) (t : Bytes) → P w → E (exit t) (g w))
      → Ensures P Q E (attempt_partly answer exit f g)
  unfolding attempt_partly
  Ensures-attempt_partly none exit f g go out = record { at = go }
  Ensures-attempt_partly (some t) exit f g go out = record { at = λ w h. out w t h }

  pub Ensures-assign : (f : S → S) → ((w : S) → P w → Q (f w)) → Ensures P Q E (assign f)
  unfolding assign
  Ensures-assign f go = record { at = go }

  pub Ensures-if :
      (b : Bool) (m k : Program S X)
      → (b ≡ true → Ensures P Q E m)
      → (b ≡ false → Ensures P Q E k)
      → Ensures P Q E (if b then m else k)
  Ensures-if true m k hm hk = hm refl
  Ensures-if false m k hm hk = hk refl

module _ {S X : Type 0} {Q R : S → Type 0} {E : X → S → Type 0} where
  after-Post :
      (x : Outcome X × S) (k : Program S X)
      → Ensures Q R E k
      → Post Q E x
      → Post R E (after x.0 k x.1)
  after-Post (next, w) k hk h = hk.at w h
  after-Post (leave e, w) k hk h = h

module _ {S X : Type 0} {P Q R : S → Type 0} {E : X → S → Type 0} where
  pub Ensures-seq : {m k : Program S X} → Ensures P Q E m → Ensures Q R E k → Ensures P R E (m >> k)
  Ensures-seq {m} {k} hm hk = record { at = λ w h. after-Post (m w) k hk (hm.at w h) }

Post-imp :
    {S X : Type 0} {Q R : S → Type 0} (E : X → S → Type 0) (x : Outcome X × S)
    → ((w : S) → Q w → R w)
    → Post Q E x
    → Post R E x
Post-imp E (next, w) imp h = imp w h
Post-imp E (leave e, w) imp h = h

module _ {S X : Type 0} {P Q R : S → Type 0} {E : X → S → Type 0} where
  pub Ensures-imp : {m : Program S X} → Ensures P Q E m → ((w : S) → Q w → R w) → Ensures P R E m
  Ensures-imp {m} h imp = record { at = λ w p. Post-imp E (m w) imp (h.at w p) }
