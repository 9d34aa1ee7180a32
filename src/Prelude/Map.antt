-- ===== src/Prelude/Map.antt =====
-- A JavaScript `Map` keyed by strings, as its entries in insertion order: `set` on a key that is
-- present keeps the entry's place.
use Prim.Native.Nat.{◌+◌, ◌≤◌}
use Prim.Native.String.{String}
use mathlib.Core.Path.{◌≡◌, refl, sym, subst, subst₂}
use mathlib.Core.Logic.{◌≢◌, inl, inr}
use mathlib.Core.Bool.{Bool, true, false}
use mathlib.Core.Option.{Option, none, some}
use mathlib.Core.List.{List, [], ◌∷◌}
use native.Mathlib.Omega.{arith}
use text.Mathlib.Text.{◌==◌ as str_eq}
use text.Mathlib.TextEquality.{eq_iff}
use invofi.Prelude.Tests.{if◌then◌else◌, Bool-cases}
use invofi.Prelude.Lists.{length}

abbrev pub Map {ℓ} : Type ℓ → Type ℓ
Map V = List (String × V)

module _ {ℓ} {V : Type ℓ} where
  unfoldable pub get : String → Map V → Option V
  get k [] = none
  get k ((j, v) ∷ m) = if str_eq j k then some v else get k m

  abbrev pub has : String → Map V → Bool
  has k m = elim (get k m) [ none ↦ false | some _ ↦ true ]

  unfoldable pub set : String → V → Map V → Map V
  set k v [] = (k, v) ∷ []
  set k v ((j, w) ∷ m) = if str_eq j k then (j, v) ∷ m else (j, w) ∷ set k v m

  unfoldable pub delete : String → Map V → Map V
  delete k [] = []
  delete k ((j, w) ∷ m) = if str_eq j k then m else (j, w) ∷ delete k m

module _ {ℓ} {V : Type ℓ} where
  pub get-set :
      (k j : String) (v : V) (m : Map V)
      → get j (set k v m) ≡ (if str_eq k j then some v else get j m)
  unfolding get set
  get-set k j v [] = refl
  get-set k j v ((i, w) ∷ m) = ground (arith, eq_iff k j, eq_iff i k, eq_iff i j, get-set k j v m)

  pub get-set_self : (k : String) (v : V) (m : Map V) → get k (set k v m) ≡ some v
  get-set_self k v m = ground (arith, get-set k k v m, eq_iff k k)

  pub get-set_ne : (k j : String) (v : V) (m : Map V) → k ≢ j → get j (set k v m) ≡ get j m
  get-set_ne k j v m h = ground (arith, get-set k j v m, eq_iff k j)

  pub length-set_new :
      (k : String) (v : V) (m : Map V) → get k m ≡ none → length (set k v m) ≡ length m + 1
  unfolding get set
  length-set_new k v [] h = omega arith
  length-set_new k v ((i, w) ∷ m) h = ground (arith, eq_iff i k, length-set_new k v m)

  pub length-set_old :
      (k : String) (v w : V) (m : Map V) → get k m ≡ some w → length (set k v m) ≡ length m
  unfolding get set
  length-set_old k v w [] h = cc
  length-set_old k v w ((i, u) ∷ m) h = ground (arith, eq_iff i k, length-set_old k v w m)

  pub get-delete_ne : (k j : String) (m : Map V) → k ≢ j → get j (delete k m) ≡ get j m
  unfolding get delete
  get-delete_ne k j [] h = refl
  get-delete_ne k j ((i, w) ∷ m) h = ground (arith, eq_iff i k, eq_iff i j, get-delete_ne k j m h)

  pub length-delete : (k : String) (m : Map V) → length (delete k m) ≤ length m
  unfolding delete
  length-delete k [] = omega arith
  length-delete k ((i, w) ∷ m) = ground (arith, length-delete k m)

-- A predicate on the entries: an update keeps it, if it holds of the new value at every key that is
-- equal to the given one.
module _ {ℓ κ} {V : Type ℓ} (P : String → V → Type κ) where
  abbrev pub AllEntries : Map V → Type κ
  AllEntries [] = Unit
  AllEntries ((k, v) ∷ m) = P k v × AllEntries m

module _ {ℓ κ} {V : Type ℓ} (P : String → V → Type κ) where
  pub AllEntries-set :
      (k : String) (v : V) (m : Map V) → AllEntries P m → P k v → AllEntries P (set k v m)
  unfolding set
  AllEntries-set k v [] h p = (p, tt)
  AllEntries-set k v ((j, w) ∷ m) h p = elim (Bool-cases (str_eq j k)) [
    | inl e ↦ rw e (subst (λ i. P i v) (sym ((eq_iff j k).0 e)) p, h.1)
    | inr e ↦ rw e (h.0, AllEntries-set k v m h.1 p)
  ]

  pub AllEntries-delete : (k : String) (m : Map V) → AllEntries P m → AllEntries P (delete k m)
  unfolding delete
  AllEntries-delete k [] h = tt
  AllEntries-delete k ((j, w) ∷ m) h = elim (Bool-cases (str_eq j k)) [
    | inl e ↦ rw e h.1
    | inr e ↦ rw e (h.0, AllEntries-delete k m h.1)
  ]

  pub AllEntries-get : (k : String) (v : V) (m : Map V) → AllEntries P m → get k m ≡ some v → P k v
  unfolding get
  AllEntries-get k v [] h e = cc
  AllEntries-get k v ((j, w) ∷ m) h e = elim (Bool-cases (str_eq j k)) [
    | inl same ↦ subst₂ P ((eq_iff j k).0 same) (ground arith) h.0
    | inr other ↦ AllEntries-get k v m h.1 (ground arith)
  ]

module _ {ℓ κ μ} {V : Type ℓ} (P : String → V → Type κ) (Q : String → V → Type μ) where
  pub AllEntries-map :
      ((k : String) (v : V) → P k v → Q k v) → (m : Map V) → AllEntries P m → AllEntries Q m
  AllEntries-map f [] h = tt
  AllEntries-map f ((k, v) ∷ m) h = (f k v h.0, AllEntries-map f m h.1)

module _ {ℓ} {V : Type ℓ} where
  pub has-set : (k j : String) (v : V) (m : Map V) → has j m ≡ true → has j (set k v m) ≡ true
  has-set k j v m h = ground (arith, get-set k j v m)

  pub has-set_self : (k : String) (v : V) (m : Map V) → has k (set k v m) ≡ true
  has-set_self k v m = ground (arith, get-set_self k v m)

  pub set-set : (k : String) (v w : V) (m : Map V) → set k v (set k w m) ≡ set k v m
  unfolding set
  set-set k v w [] = ground (arith, eq_iff k k)
  set-set k v w ((i, u) ∷ m) = ground (arith, eq_iff i k, set-set k v w m)
