-- ===== src/Operator/Config/Drift/Differences.antt =====
-- internal/operator/config/drift.go: which differences of a ConfigMap are found.
use jira_cdc_git.Prelude.{
  ◌≡◌, refl, sym, ◌∙◌, true, Option, none, some, [], ◌∷◌, if◌then◌else◌, arith, ◌↔◌,
}
use jira_cdc_git.Prelude.Text.{Text, codes, text_eq, text_eq_iff}
use jira_cdc_git.Prelude.Assoc.{Assoc, lookup, lookup-insert, HasUniqueKeys}
use jira_cdc_git.Operator.Spec.{is_empty}
use jira_cdc_git.Operator.Config.Drift.{
  DataDifference, insert_some, note_all, difference_of, extra_of, compare_expected, find_extra,
  differences,
}

-- The first of two options that is there.
abbrev pub or_else {ℓ} : {A : Type ℓ} → Option A → Option A → Option A
or_else none b = b
or_else (some a) b = some a

-- What is to be noted of a key, by what is expected of it and what it has.
abbrev pub difference_between : Option Text → Option Text → Option DataDifference
difference_between none none = none
difference_between none (some a) = some (record { expected = []; actual = a; type = codes "extra" })
difference_between (some e) none =
    some (record { expected = e; actual = []; type = codes "missing" })
difference_between (some e) (some a) =
    if text_eq a e
    then none
    else some (record { expected = e; actual = a; type = codes "different" })

lookup-insert_some :
    {V : Type 0} (k j : Text) (x : Option V) (d : Assoc V)
    → lookup j (insert_some k x d) ≡ (if text_eq k j then or_else x (lookup j d) else lookup j d)
lookup-insert_some k j none d = ground arith
lookup-insert_some k j (some v) d = lookup-insert k j v d

-- What a loop notes of a key that it has.
abbrev pub noted : {V : Type 0} → (Text → Option V) → Option Text → Option V
noted f none = none
noted f (some e) = f e

-- A loop notes each key that it has once, in place of what was noted before.
pub lookup-note_all :
    {V : Type 0} (f : Text → Text → Option V) (k : Text) (m : Assoc Text) (d : Assoc V)
    → HasUniqueKeys m
    → lookup k (note_all f m d) ≡ or_else (noted (f k) (lookup k m)) (lookup k d)
unfolding note_all lookup
lookup-note_all f k [] d h = refl
lookup-note_all f k ((j, e) ∷ m) d h = ground (
  arith,
  text_eq_iff j k,
  lookup-note_all f k m (insert_some j (f j e) d) h.1,
  lookup-insert_some j k (f j e) d,
  h.0,
)

-- Every key's difference, and no other.
lookup-differences :
    (k : Text) (expected actual : Assoc Text)
    → HasUniqueKeys expected
    → HasUniqueKeys actual
    → lookup k (differences expected actual)
      ≡ difference_between (lookup k expected) (lookup k actual)
unfolding differences compare_expected find_extra difference_of extra_of lookup
lookup-differences k expected actual he ha =
    let c = compare_expected actual expected [] in
    let extra = lookup-note_all (λ j a. extra_of a (lookup j expected)) k actual c ha in
    let compared = lookup-note_all (λ j e. difference_of e (lookup j actual)) k expected [] he in
    ground (arith, extra, compared)

-- A map with no entry at any key is empty.
pub is_empty-lookup :
    {V : Type 0} (m : Assoc V) → ((k : Text) → lookup k m ≡ none) → is_empty m ≡ true
unfolding lookup
is_empty-lookup [] h = refl
is_empty-lookup ((k, v) ∷ m) h = ground (arith, h k, text_eq_iff k k)

pub lookup-is_empty :
    {V : Type 0} (m : Assoc V) → is_empty m ≡ true → (k : Text) → lookup k m ≡ none
unfolding lookup
lookup-is_empty [] h k = refl
lookup-is_empty (e ∷ m) h k = cc

no_difference : (e a : Option Text) → difference_between e a ≡ none → a ≡ e
no_difference none none h = refl
no_difference none (some a) h = cc
no_difference (some e) none h = cc
no_difference (some e) (some a) h = ground (arith, text_eq_iff a e)

equal_difference : (e a : Option Text) → a ≡ e → difference_between e a ≡ none
equal_difference none none h = refl
equal_difference none (some a) h = cc
equal_difference (some e) none h = cc
equal_difference (some e) (some a) h = ground (arith, text_eq_iff a e)

-- No difference is found exactly if the maps agree.
pub is_empty-differences :
    (expected actual : Assoc Text)
    → HasUniqueKeys expected
    → HasUniqueKeys actual
    → (is_empty (differences expected actual) ≡ true)
      ↔ ((k : Text) → lookup k actual ≡ lookup k expected)
is_empty-differences expected actual he ha = (
  (λ h k. no_difference (lookup k expected) (lookup k actual) (
      sym (lookup-differences k expected actual he ha)
      ∙ lookup-is_empty (differences expected actual) h k)),
  λ h. is_empty-lookup (differences expected actual) (λ k.
      lookup-differences k expected actual he ha
      ∙ equal_difference (lookup k expected) (lookup k actual) (h k)),
)
