-- ===== src/Prelude/Sorting.antt =====
-- `sort.Strings`: the bytewise order of texts, and sorting by insertion.
use jira_cdc_git.Prelude.Tests.{if◌then◌else◌, ltb, Bool-cases}
use jira_cdc_git.Prelude.Lists.{any}
use jira_cdc_git.Prelude.Text.{Text, text_eq, text_eq_iff}
use mathlib.Core.Path.{◌≡◌, refl}
use mathlib.Core.Logic.{◌⊎◌, inl, inr}
use mathlib.Core.Bool.{Bool, true, false}
use mathlib.Core.List.{List, [], ◌∷◌}
use native.Mathlib.Omega.{arith}

-- The test `s <= t` on strings.
unfoldable pub text_le : Text → Text → Bool
text_le [] t = true
text_le (x ∷ s) [] = false
text_le (x ∷ s) (y ∷ t) =
    let rest = text_le s t in if ltb x y then true else if ltb y x then false else rest

pub text_le_total : (s t : Text) → (text_le s t ≡ true) ⊎ (text_le t s ≡ true)
unfolding text_le
text_le_total [] t = inl refl
text_le_total (x ∷ s) [] = inr refl
text_le_total (x ∷ s) (y ∷ t) = ground (arith, text_le_total s t)

pub text_le_trans : (s t u : Text) → text_le s t ≡ true → text_le t u ≡ true → text_le s u ≡ true
unfolding text_le
text_le_trans [] t u p q = refl
text_le_trans (x ∷ s) [] u p q = cc
text_le_trans (x ∷ s) (y ∷ t) [] p q = cc
text_le_trans (x ∷ s) (y ∷ t) (z ∷ u) p q = ground (arith, text_le_trans s t u)

pub text_le_antisym : (s t : Text) → text_le s t ≡ true → text_le t s ≡ true → s ≡ t
unfolding text_le
text_le_antisym [] [] p q = refl
text_le_antisym [] (y ∷ t) p q = cc
text_le_antisym (x ∷ s) [] p q = cc
text_le_antisym (x ∷ s) (y ∷ t) p q = ground (arith, text_le_antisym s t)

unfoldable pub insert_sorted : Text → List Text → List Text
insert_sorted x [] = x ∷ []
insert_sorted x (y ∷ ys) = if text_le x y then x ∷ y ∷ ys else y ∷ insert_sorted x ys

unfoldable pub sort_texts : List Text → List Text
unfolding insert_sorted text_le
sort_texts [] = []
sort_texts (x ∷ xs) = insert_sorted x (sort_texts xs)

-- Every element is at most all that follow it.
abbrev pub AllFrom : Text → List Text → Type 0
AllFrom x [] = Unit
AllFrom x (y ∷ ys) = (text_le x y ≡ true) × AllFrom x ys

abbrev pub IsSorted : List Text → Type 0
IsSorted [] = Unit
IsSorted (x ∷ xs) = AllFrom x xs × IsSorted xs

AllFrom-trans : (x y : Text) (zs : List Text) → text_le x y ≡ true → AllFrom y zs → AllFrom x zs
AllFrom-trans x y [] p h = tt
AllFrom-trans x y (z ∷ zs) p h = (text_le_trans x y z p h.0, AllFrom-trans x y zs p h.1)

AllFrom-insert_sorted :
    (w x : Text) (ys : List Text)
    → text_le w x ≡ true
    → AllFrom w ys
    → AllFrom w (insert_sorted x ys)
unfolding insert_sorted
AllFrom-insert_sorted w x [] p h = (p, tt)
AllFrom-insert_sorted w x (y ∷ ys) p h = elim (Bool-cases (text_le x y)) [
  | inl e ↦ rw e (p, h)
  | inr e ↦ rw e (h.0, AllFrom-insert_sorted w x ys p h.1)
]

le_of_not : (x y : Text) → text_le x y ≡ false → text_le y x ≡ true
le_of_not x y h = elim (text_le_total x y) [ inl p ↦ cc | inr p ↦ p ]

pub insert_sorted-IsSorted :
    (x : Text) (ys : List Text) → IsSorted ys → IsSorted (insert_sorted x ys)
unfolding insert_sorted
insert_sorted-IsSorted x [] h = (tt, tt)
insert_sorted-IsSorted x (y ∷ ys) h = elim (Bool-cases (text_le x y)) [
  | inl e ↦ rw e ((e, AllFrom-trans x y ys e h.0), h)
  | inr e ↦
      rw e (AllFrom-insert_sorted y x ys (le_of_not x y e) h.0, insert_sorted-IsSorted x ys h.1)
]

pub sort_texts-IsSorted : (xs : List Text) → IsSorted (sort_texts xs)
unfolding sort_texts
sort_texts-IsSorted [] = tt
sort_texts-IsSorted (x ∷ xs) = insert_sorted-IsSorted x (sort_texts xs) (sort_texts-IsSorted xs)

-- Is `x` among the texts?
abbrev pub contains : Text → List Text → Bool
contains x = any (λ y. text_eq y x)

-- Each text occurs once.
abbrev pub HasNoRepeats : List Text → Type 0
HasNoRepeats [] = Unit
HasNoRepeats (x ∷ xs) = (contains x xs ≡ false) × HasNoRepeats xs

pub contains-insert_sorted :
    (x y : Text) (ys : List Text)
    → contains x (insert_sorted y ys) ≡ (if text_eq y x then true else contains x ys)
unfolding insert_sorted
contains-insert_sorted x y [] = refl
contains-insert_sorted x y (z ∷ zs) = ground (arith, contains-insert_sorted x y zs)

-- Sorting keeps the elements.
pub contains-sort_texts : (x : Text) (ys : List Text) → contains x (sort_texts ys) ≡ contains x ys
unfolding sort_texts
contains-sort_texts x [] = refl
contains-sort_texts x (y ∷ ys) =
    ground (arith, contains-insert_sorted x y (sort_texts ys), contains-sort_texts x ys)

insert_sorted-HasNoRepeats :
    (y : Text) (ys : List Text)
    → contains y ys ≡ false
    → HasNoRepeats ys
    → HasNoRepeats (insert_sorted y ys)
unfolding insert_sorted
insert_sorted-HasNoRepeats y [] h k = (refl, tt)
insert_sorted-HasNoRepeats y (z ∷ zs) h k = elim (Bool-cases (text_le y z)) [
  | inl e ↦ rw e (h, k)
  | inr e ↦ rw e (
    ground (arith, contains-insert_sorted z y zs, text_eq_iff y z, text_eq_iff z y),
    insert_sorted-HasNoRepeats y zs (ground arith) k.1,
  )
]

pub sort_texts-HasNoRepeats : (ys : List Text) → HasNoRepeats ys → HasNoRepeats (sort_texts ys)
unfolding sort_texts
sort_texts-HasNoRepeats [] h = tt
sort_texts-HasNoRepeats (y ∷ ys) h =
    insert_sorted-HasNoRepeats y (sort_texts ys) (rw contains-sort_texts h.0)
      (sort_texts-HasNoRepeats ys h.1)
