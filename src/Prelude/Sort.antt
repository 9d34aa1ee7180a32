-- ===== src/Prelude/Sort.antt =====
-- A stable sort by a test, as `Array.prototype.sort` is: an element goes before the first one that
-- it may precede.
use mathlib.Core.Path.{◌≡◌}
use mathlib.Core.Bool.{Bool, true, false}
use mathlib.Core.Logic.{inl, inr}
use mathlib.Core.List.{List, [], ◌∷◌, Perm}
use mathlib.Core.List.Perm
use invofi.Prelude.Tests.{if◌then◌else◌, Bool-cases}
use Prim.Native.Nat.{ℕ, zero, suc}
use invofi.Prelude.Lists.{All, All-map, All-drop, take, drop}

module _ {ℓ} {A : Type ℓ} (may_precede : A → A → Bool) where
  unfoldable pub insert_before : A → List A → List A
  insert_before x [] = x ∷ []
  insert_before x (y ∷ ys) =
      let later = insert_before x ys in if may_precede x y then x ∷ y ∷ ys else y ∷ later

  unfoldable pub sort_by : List A → List A
  sort_by [] = []
  sort_by (x ∷ xs) = insert_before x (sort_by xs)

  abbrev pub IsSorted : List A → Type ℓ
  IsSorted [] = Unit
  IsSorted (x ∷ xs) = All (λ y. may_precede x y ≡ true) xs × IsSorted xs

module _ {ℓ} {A : Type ℓ} (may_precede : A → A → Bool) where
  insert_before-perm : (x : A) (xs : List A) → Perm (insert_before may_precede x xs) (x ∷ xs)
  unfolding insert_before
  insert_before-perm x [] = Perm.refl (x ∷ [])
  insert_before-perm x (y ∷ ys) = elim (Bool-cases (may_precede x y)) [
    | inl first ↦ rw first (Perm.refl (x ∷ y ∷ ys))
    | inr later ↦ rw later (Perm.trans (Perm.cons y (insert_before-perm x ys)) (Perm.swap x y ys))
  ]

  pub sort_by-perm : (xs : List A) → Perm (sort_by may_precede xs) xs
  unfolding sort_by
  sort_by-perm [] = Perm.refl []
  sort_by-perm (x ∷ xs) =
      Perm.trans (insert_before-perm x (sort_by may_precede xs)) (Perm.cons x (sort_by-perm xs))

  All-insert_before {κ} :
      (P : A → Type κ) (x : A) (xs : List A)
      → P x
      → All P xs
      → All P (insert_before may_precede x xs)
  unfolding insert_before
  All-insert_before P x [] p h = (p, tt)
  All-insert_before P x (y ∷ ys) p h = elim (Bool-cases (may_precede x y)) [
    | inl first ↦ rw first (p, h)
    | inr later ↦ rw later (h.0, All-insert_before P x ys p h.1)
  ]

  pub All-sort_by {κ} : (P : A → Type κ) (xs : List A) → All P xs → All P (sort_by may_precede xs)
  unfolding sort_by
  All-sort_by P [] h = tt
  All-sort_by P (x ∷ xs) h =
      All-insert_before P x (sort_by may_precede xs) h.0 (All-sort_by P xs h.1)

  module _ (total : (x y : A) → may_precede x y ≡ false → may_precede y x ≡ true)
      (trans : (x y z : A)
        → may_precede x y ≡ true
        → may_precede y z ≡ true
        → may_precede x z ≡ true) where
    insert_before-IsSorted :
        (x : A) (xs : List A)
        → IsSorted may_precede xs
        → IsSorted may_precede (insert_before may_precede x xs)
    unfolding insert_before
    insert_before-IsSorted x [] h = (tt, tt)
    insert_before-IsSorted x (y ∷ ys) h = elim (Bool-cases (may_precede x y)) [
      | inl first ↦ rw first ((first, All-map _ _ (λ z p. trans x y z first p) ys h.0), h)
      | inr later ↦
          rw later (All-insert_before _ x ys (total x y later) h.0, insert_before-IsSorted x ys h.1)
    ]

    pub sort_by-IsSorted : (xs : List A) → IsSorted may_precede (sort_by may_precede xs)
    unfolding sort_by
    sort_by-IsSorted [] = tt
    sort_by-IsSorted (x ∷ xs) =
        insert_before-IsSorted x (sort_by may_precede xs) (sort_by-IsSorted xs)

module _ {ℓ κ} {A : Type ℓ} where
  -- Every element is related to each one after it.
  abbrev pub IsOrdered : (A → A → Type κ) → List A → Type (ℓ ⊔ κ)
  IsOrdered R [] = Unit
  IsOrdered R (x ∷ xs) = All (R x) xs × IsOrdered R xs

module _ {ℓ κ} {A : Type ℓ} (may_precede : A → A → Bool) (R : A → A → Type κ)
    (related : (x y : A) → may_precede x y ≡ true → R x y) where
  pub IsSorted-IsOrdered : (xs : List A) → IsSorted may_precede xs → IsOrdered R xs
  IsSorted-IsOrdered [] h = tt
  IsSorted-IsOrdered (x ∷ xs) h = (All-map _ (R x) (related x) xs h.0, IsSorted-IsOrdered xs h.1)

  module _ (other : (x y : A) → may_precede x y ≡ false → R y x)
      (trans : (x y z : A) → R x y → R y z → R x z) where
    pub insert_before-IsOrdered :
        (x : A) (xs : List A) → IsOrdered R xs → IsOrdered R (insert_before may_precede x xs)
    unfolding insert_before
    insert_before-IsOrdered x [] h = (tt, tt)
    insert_before-IsOrdered x (y ∷ ys) h = elim (Bool-cases (may_precede x y)) [
      | inl first ↦
          let before = related x y first in
          rw first ((before, All-map _ (R x) (λ z p. trans x y z before p) ys h.0), h)
      | inr later ↦ rw later (
        All-insert_before may_precede (R y) x ys (other x y later) h.0,
        insert_before-IsOrdered x ys h.1,
      )
    ]

module _ {ℓ κ} {A : Type ℓ} (R : A → A → Type κ) where
  -- What is at the front is related to what is behind it.
  pub IsOrdered-take-drop :
      (n : ℕ) (xs : List A) → IsOrdered R xs → All (λ x. All (R x) (drop n xs)) (take n xs)
  IsOrdered-take-drop zero xs h = tt
  IsOrdered-take-drop (suc n) [] h = tt
  IsOrdered-take-drop (suc n) (x ∷ xs) h = (All-drop (R x) n xs h.0, IsOrdered-take-drop n xs h.1)
