-- ===== src/Prelude/Assoc.antt =====
-- A Go `map[string]V` as an association list. Go leaves the order of an iteration open; the model
-- iterates in the order of the list, and what is proved holds for every list, so for every order.
use jira_cdc_git.Prelude.Tests.{if◌then◌else◌, Bool-cases}
use jira_cdc_git.Prelude.Text.{Text, text_eq, text_eq_iff}
use mathlib.Core.Path.{◌≡◌, refl}
use mathlib.Core.Logic.{inl, inr}
use mathlib.Core.Option.{Option, none, some}
use mathlib.Core.List.{List, [], ◌∷◌}
use native.Mathlib.Omega.{arith}

abbrev pub Assoc {ℓ} : Type ℓ → Type ℓ
Assoc V = List (Text × V)

module _ {ℓ} {V : Type ℓ} where
  unfoldable pub lookup : Text → Assoc V → Option V
  lookup k [] = none
  lookup k ((j, v) ∷ m) = if text_eq j k then some v else lookup k m

  unfoldable pub insert : Text → V → Assoc V → Assoc V
  insert k v [] = (k, v) ∷ []
  insert k v ((j, w) ∷ m) = if text_eq j k then (k, v) ∷ m else (j, w) ∷ insert k v m

  -- `delete(m, k)`.
  unfoldable pub remove : Text → Assoc V → Assoc V
  remove k [] = []
  remove k ((j, w) ∷ m) = let rest = remove k m in if text_eq j k then rest else (j, w) ∷ rest

  pub lookup-insert :
      (k j : Text) (v : V) (m : Assoc V)
      → lookup j (insert k v m) ≡ (if text_eq k j then some v else lookup j m)
  unfolding lookup insert
  lookup-insert k j v [] = refl
  lookup-insert k j v ((i, w) ∷ m) =
      ground (arith, text_eq_iff k j, text_eq_iff i k, text_eq_iff i j, lookup-insert k j v m)

  pub lookup-remove :
      (k j : Text) (m : Assoc V)
      → lookup j (remove k m) ≡ (if text_eq k j then none else lookup j m)
  unfolding lookup remove
  lookup-remove k j [] = ground arith
  lookup-remove k j ((i, w) ∷ m) =
      ground (arith, lookup-remove k j m, text_eq_iff i k, text_eq_iff i j, text_eq_iff k j)

module _ {ℓ} {V : Type ℓ} where
  -- Every list that stands for a map has each key once.
  abbrev pub HasUniqueKeys : Assoc V → Type ℓ
  HasUniqueKeys [] = Unit
  HasUniqueKeys ((k, v) ∷ m) = (lookup k m ≡ none) × HasUniqueKeys m

  pub insert-HasUniqueKeys :
      (k : Text) (v : V) (m : Assoc V) → HasUniqueKeys m → HasUniqueKeys (insert k v m)
  unfolding insert lookup
  insert-HasUniqueKeys k v [] h = (refl, tt)
  insert-HasUniqueKeys k v ((j, w) ∷ m) h = elim (Bool-cases (text_eq j k)) [
    | inl e ↦ rw e (ground (arith, text_eq_iff j k), h.1)
    | inr e ↦ rw e (
      ground (arith, lookup-insert k j v m, text_eq_iff j k, text_eq_iff k j),
      insert-HasUniqueKeys k v m h.1,
    )
  ]

  pub remove-HasUniqueKeys : (k : Text) (m : Assoc V) → HasUniqueKeys m → HasUniqueKeys (remove k m)
  unfolding remove lookup
  remove-HasUniqueKeys k [] h = h
  remove-HasUniqueKeys k ((j, w) ∷ m) h = elim (Bool-cases (text_eq j k)) [
    | inl e ↦ rw e (remove-HasUniqueKeys k m h.1)
    | inr e ↦ rw e (ground (arith, lookup-remove k j m), remove-HasUniqueKeys k m h.1)
  ]
