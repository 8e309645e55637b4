-- ===== src/Operator/Config/Drift/Comparisons.antt =====
-- internal/operator/config/drift.go: when a comparison of one part of a resource notes nothing.
use jira_cdc_git.Prelude.{
  ℕ, ◌≡◌, refl, sym, ◌∙◌, Bool, true, false, not, Option, none, some, List, [], ◌∷◌, ◌||◌,
  if◌then◌else◌, arith, ◌↔◌,
}
use jira_cdc_git.Prelude.Text.{Text, text_eq_iff}
use jira_cdc_git.Prelude.Assoc.{Assoc, lookup, HasUniqueKeys, insert-HasUniqueKeys}
use jira_cdc_git.Sync.Services.{Outcome, ok, fail}
use jira_cdc_git.Operator.Cluster.{Found, found, missing, broken}
use jira_cdc_git.Operator.Spec.{is_empty}
use jira_cdc_git.Operator.Config.Drift.{
  Container, actual_env, changed_env, changed_value, other_number, other_text, is_set, other_hash,
}
use jira_cdc_git.Operator.Config.Drift.Detection.{insert_if, image_drift, environment_drift}
use jira_cdc_git.Operator.Config.Drift.Differences.{
  or_else, noted, lookup-note_all, is_empty-lookup, lookup-is_empty,
}

-- A value that is there is the expected one.
abbrev pub IsUnless : {A : Type 0} → A → Option A → Type 0
IsUnless e none = Unit
IsUnless e (some a) = a ≡ e

-- Each expected variable has its value.
abbrev pub Includes : Assoc Text → Assoc Text → Type 0
Includes actual expected = (k e : Text) → lookup k expected ≡ some e → lookup k actual ≡ some e

-- The first container has the image.
abbrev pub HasImage : Text → List Container → Type 0
HasImage image [] = Unit
HasImage image (c ∷ cs) = c.image ≡ image

-- If the first container has variables with a value, it has all that are expected.
abbrev pub HasEnv : Assoc Text → List Container → Type 0
HasEnv expected [] = Unit
HasEnv expected (c ∷ cs) =
    is_empty (actual_env c.env []) ≡ false → Includes (actual_env c.env []) expected

abbrev pub is_broken : {A : Type 0} → Found A → Bool
is_broken (broken e) = true
is_broken missing = false
is_broken (found a) = false

-- A resource is there, and it is as `Q` says.
abbrev pub IsFound : {A : Type 0} → (A → Type 0) → Found A → Type 0
IsFound Q (found a) = Q a
IsFound Q missing = ⊥
IsFound Q (broken e) = ⊥

-- A list that stands for a map has each key once.
abbrev pub HasUniqueData : Found (Assoc Text) → Type 0
HasUniqueData (found m) = HasUniqueKeys m
HasUniqueData missing = Unit
HasUniqueData (broken e) = Unit

-- The outcome of one comparison: no drift exactly under `Q`, and an error only of the read.
abbrev pub Compares : {A D : Type 0} → (D → Bool) → (A → Type 0) → Found A → Outcome D → Type 0
Compares drifts Q a (ok d) = (drifts d ≡ false) ↔ IsFound Q a
Compares drifts Q a (fail e) = is_broken a ≡ true

unchanged_value :
    (x a : Option Text)
    → ((e : Text) → x ≡ some e → a ≡ some e)
    → noted (λ e. changed_value e a) x ≡ none
unfolding changed_value
unchanged_value none a h = refl
unchanged_value (some e) a h = rw (h e refl) (ground (arith, text_eq_iff e e))

no_value : (e : Text) (a : Option Text) → changed_value e a ≡ none → a ≡ some e
unfolding changed_value
no_value e none h = cc
no_value e (some a) h = ground (arith, text_eq_iff a e)

or_else-none : {A : Type 0} (x : Option A) → or_else x none ≡ x
or_else-none none = refl
or_else-none (some a) = refl

noted-none :
    (x a : Option Text) (e : Text)
    → noted (λ v. changed_value v a) x ≡ none
    → x ≡ some e
    → a ≡ some e
noted-none none a e h q = cc
noted-none (some v) a e h q = no_value v a h ∙ q

changed_env-Includes :
    (actual expected : Assoc Text)
    → HasUniqueKeys expected
    → (is_empty (changed_env actual expected) ≡ true) ↔ Includes actual expected
unfolding changed_env lookup
changed_env-Includes actual expected h =
    let at : (k : Text)
        → lookup k (changed_env actual expected)
          ≡ noted (λ e. changed_value e (lookup k actual)) (lookup k expected) =
      λ k.
        lookup-note_all (λ j e. changed_value e (lookup j actual)) k expected [] h
        ∙ or_else-none (noted (λ e. changed_value e (lookup k actual)) (lookup k expected)) in
    (
      (λ g k e q.
          noted-none (lookup k expected) (lookup k actual) e
            (sym (at k) ∙ lookup-is_empty (changed_env actual expected) g k) q),
      λ g.
          is_empty-lookup (changed_env actual expected)
            (λ k. at k ∙ unchanged_value (lookup k expected) (lookup k actual) (g k)),
    )

-- Two tests that fail together.
pub or_false :
    {A B : Type 0} {a b : Bool} → (a ≡ false) ↔ A → (b ≡ false) ↔ B → ((a || b) ≡ false) ↔ (A × B)
or_false {a = false} {b = b} p q = ((λ h. (p.0 refl, q.0 h)), λ h. q.1 h.1)
or_false {a = true} {b = b} p q = ((λ h. (p.0 h, q.0 (cc))), λ h. p.1 h.0)

pub not-false : {A : Type 0} {a : Bool} → (a ≡ true) ↔ A → (not a ≡ false) ↔ A
not-false {a = true} p = ((λ h. p.0 refl), λ h. refl)
not-false {a = false} p = ((λ h. p.0 (sym h)), λ h. sym (p.1 h))

pub other_number-IsUnless :
    (e : ℕ) (a : Option ℕ) → (is_set (other_number e a) ≡ false) ↔ IsUnless e a
other_number-IsUnless e none = ground arith
other_number-IsUnless e (some a) = ground arith

pub other_text_iff : (e a : Text) → (is_set (other_text e a) ≡ false) ↔ (a ≡ e)
other_text_iff e a = ground (arith, text_eq_iff a e)

pub other_hash-IsUnless : (e : Text) (a : Option Text) → (other_hash e a ≡ false) ↔ IsUnless e a
other_hash-IsUnless e none = ground arith
other_hash-IsUnless e (some a) = ground (arith, text_eq_iff a e)

pub image_drift-HasImage :
    (e : Text) (cs : List Container) → (is_set (image_drift e cs) ≡ false) ↔ HasImage e cs
unfolding image_drift
image_drift-HasImage e [] = ground arith
image_drift-HasImage e (c ∷ cs) = other_text_iff e c.image

-- What is compared only if the actual variables are not empty.
guarded_iff :
    {V : Type 0} {A : Type 0} (b : Bool) (d : Assoc V)
    → (is_empty d ≡ true) ↔ A
    → (not (is_empty (if b then [] else d)) ≡ false) ↔ (b ≡ false → A)
guarded_iff true d p = ((λ h q. cc), λ h. refl)
guarded_iff false d p = ((λ h q. (not-false p).0 h), λ h. (not-false p).1 (h refl))

pub environment_drift-HasEnv :
    (expected : Assoc Text) (cs : List Container)
    → HasUniqueKeys expected
    → (not (is_empty (environment_drift expected cs)) ≡ false) ↔ HasEnv expected cs
unfolding environment_drift
environment_drift-HasEnv expected [] h = ground arith
environment_drift-HasEnv expected (c ∷ cs) h =
    guarded_iff (is_empty (actual_env c.env [])) (changed_env (actual_env c.env []) expected)
      (changed_env-Includes (actual_env c.env []) expected h)

pub insert_if-HasUniqueKeys :
    (b : Bool) (k v : Text) (m : Assoc Text) → HasUniqueKeys m → HasUniqueKeys (insert_if b k v m)
insert_if-HasUniqueKeys true k v m h = insert-HasUniqueKeys k v m h
insert_if-HasUniqueKeys false k v m h = h
