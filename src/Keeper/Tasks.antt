-- ===== src/Keeper/Tasks.antt =====
-- How the calls of a task go together.
use invofi.Prelude.{◌≡◌, refl, Bool, true, false, if◌then◌else◌}
use invofi.Prelude.Result.{Result, ok, err}
use invofi.Keeper.{Failure, Task, return, after}

module _ {W : Type 0} where
  -- The same call, with another value returned.
  abbrev pub returning : {A B : Type 0} → (A → B) → Result Failure A × W → Result Failure B × W
  returning f (ok a, w) = (ok (f a), w)
  returning f (err e, w) = (err e, w)

  pub after_ext :
      {A B : Type 0} (r : Result Failure A × W) (f g : A → Task W B)
      → ((a : A) (w : W) → f a w ≡ g a w)
      → after r f ≡ after r g
  after_ext (ok a, w) f g h = h a w
  after_ext (err e, w) f g h = refl

  -- It is enough that the functions agree on what the call returns.
  pub after_on :
      {A B : Type 0} (r : Result Failure A × W) (f g : A → Task W B)
      → ((a : A) (w : W) → r ≡ (ok a, w) → f a w ≡ g a w)
      → after r f ≡ after r g
  after_on (ok a, w) f g h = h a w refl
  after_on (err e, w) f g h = refl

  pub after-after :
      {A B C : Type 0} (r : Result Failure A × W) (f : A → Task W B) (g : B → Task W C)
      → after (after r f) g ≡ after r (λ a w. after (f a w) g)
  after-after (ok a, w) f g = refl
  after-after (err e, w) f g = refl

  pub after-return : {A : Type 0} (r : Result Failure A × W) → after r return ≡ r
  after-return (ok a, w) = refl
  after-return (err e, w) = refl

  pub after-returning :
      {A B C : Type 0} (r : Result Failure A × W) (f : A → B) (g : B → Task W C)
      → after (returning f r) g ≡ after r (λ a. g (f a))
  after-returning (ok a, w) f g = refl
  after-returning (err e, w) f g = refl

  pub returning-after :
      {A B C : Type 0} (r : Result Failure A × W) (f : A → Task W B) (g : B → C)
      → returning g (after r f) ≡ after r (λ a w. returning g (f a w))
  returning-after (ok a, w) f g = refl
  returning-after (err e, w) f g = refl

-- If the task returns, its value satisfies `P`.
abbrev pub Returns : {W A : Type 0} → (A → Type 0) → Result Failure A × W → Type 0
Returns P (ok a, w) = P a
Returns P (err e, w) = Unit

module _ {W : Type 0} where
  pub Returns-after :
      {A B : Type 0} (P : A → Type 0) (Q : B → Type 0) (r : Result Failure A × W) (f : A → Task W B)
      → Returns P r
      → ((a : A) (w : W) → P a → Returns Q (f a w))
      → Returns Q (after r f)
  Returns-after P Q (ok a, w) f h k = k a w h
  Returns-after P Q (err e, w) f h k = tt

  pub Returns-any : {A : Type 0} (r : Result Failure A × W) → Returns (λ _. Unit {0}) r
  Returns-any (ok a, w) = tt
  Returns-any (err e, w) = tt

  pub Returns-if :
      {A : Type 0} (P : A → Type 0) (b : Bool) (m k : Task W A) (w : W)
      → (b ≡ true → Returns P (m w))
      → (b ≡ false → Returns P (k w))
      → Returns P ((if b then m else k) w)
  Returns-if P true m k w h₁ h₂ = h₁ refl
  Returns-if P false m k w h₁ h₂ = h₂ refl

  pub Returns-map :
      {A : Type 0} (P Q : A → Type 0)
      → ((a : A) → P a → Q a)
      → (r : Result Failure A × W) → Returns P r
      → Returns Q r
  Returns-map P Q f (ok a, w) h = f a h
  Returns-map P Q f (err e, w) h = tt
