-- ===== src/Operator/Config/Validation/Email.antt =====
-- internal/operator/config/validation.go: the emails that validateEmail takes.
use jira_cdc_git.Prelude.{
  ℕ, ◌≡◌, refl, ◌↔◌, Bool, true, false, none, List, [], ◌∷◌, ◌++◌, ◌==◌, any, if◌then◌else◌, arith,
}
use jira_cdc_git.Prelude.Text.{Text, text_eq_iff}
use jira_cdc_git.Operator.Spec.{is_empty}
use jira_cdc_git.Operator.Config.Validation.{
  split, prefix_first, two_parts, at_sign, validate_email,
}

abbrev pub has : ℕ → Text → Bool
has sep s = any (λ c. c == sep) s

-- The email `local@domain`, with one `@`.
pub record IsEmail (email : Text) : Type 0 where
  pub local_part : Text
  pub domain : Text
  pub joined : email ≡ local_part ++ (at_sign ∷ domain)
  pub local_part_full : is_empty local_part ≡ false
  pub domain_full : is_empty domain ≡ false
  pub local_part_plain : has at_sign local_part ≡ false
  pub domain_plain : has at_sign domain ≡ false

-- A text without the separator is one part.
split-plain : (sep : ℕ) (s : Text) → has sep s ≡ false → split sep s ≡ s ∷ []
unfolding split
split-plain sep [] h = refl
split-plain sep (c ∷ s) h = ground (arith, split-plain sep s)

split-append :
    (sep : ℕ) (a b : Text)
    → has sep a ≡ false
    → has sep b ≡ false
    → split sep (a ++ (sep ∷ b)) ≡ a ∷ b ∷ []
unfolding split
split-append sep [] b h g = ground (arith, split-plain sep b)
split-append sep (c ∷ a) b h g = ground (arith, split-append sep a b)

split-full : (sep : ℕ) (s : Text) → is_empty (split sep s) ≡ false
unfolding split
split-full sep [] = refl
split-full sep (c ∷ s) = prefixed (split sep s)
  where
    prefixed : (ps : List Text) → is_empty (if c == sep then [] ∷ ps else prefix_first c ps) ≡ false
    prefixed [] = ground arith
    prefixed (p ∷ ps) = ground arith

-- What the first byte adds to the parts of the rest.
abbrev cons_part : ℕ → ℕ → List Text → List Text
cons_part sep c ps = if c == sep then [] ∷ ps else prefix_first c ps

plain-cons_part :
    (sep c : ℕ) (s b : Text) (ps : List Text)
    → split sep s ≡ ps
    → is_empty ps ≡ false
    → ((p : Text) → split sep s ≡ p ∷ [] → (s ≡ p) × (has sep s ≡ false))
    → cons_part sep c ps ≡ b ∷ []
    → (c ∷ s ≡ b) × (has sep (c ∷ s) ≡ false)
plain-cons_part sep c s b [] e f ih h = cc
plain-cons_part sep c s b (p ∷ []) e f ih h =
    let i = ih p e in (ground (arith, i.0, i.1), ground (arith, i.0, i.1))
plain-cons_part sep c s b (p ∷ q ∷ ps) e f ih h = (ground arith, ground arith)

plain-split : (sep : ℕ) (s b : Text) → split sep s ≡ b ∷ [] → (s ≡ b) × (has sep s ≡ false)
unfolding split
plain-split sep [] b h = (ground arith, refl)
plain-split sep (c ∷ s) b h =
    plain-cons_part sep c s b (split sep s) refl (split-full sep s) (plain-split sep s) h

-- Two parts are those before and after the only separator.
abbrev IsJoined : ℕ → Text → Text → Text → Type 0
IsJoined sep s a b = (s ≡ a ++ (sep ∷ b)) × (has sep a ≡ false) × (has sep b ≡ false)

cons_part_two :
    (sep c : ℕ) (s a b : Text) (ps : List Text)
    → split sep s ≡ ps
    → is_empty ps ≡ false
    → ((a b : Text) → split sep s ≡ a ∷ b ∷ [] → IsJoined sep s a b)
    → cons_part sep c ps ≡ a ∷ b ∷ []
    → IsJoined sep (c ∷ s) a b
cons_part_two sep c s a b [] e f ih h = cc
cons_part_two sep c s a b (p ∷ []) e f ih h =
    let i = plain-split sep s p e in
    (ground (arith, i.0, i.1), ground (arith, i.0, i.1), ground (arith, i.0, i.1))
cons_part_two sep c s a b (p ∷ q ∷ []) e f ih h =
    let i = ih p q e in
    (ground (arith, i.0, i.1, i.2), ground (arith, i.0, i.1, i.2), ground (arith, i.0, i.1, i.2))
cons_part_two sep c s a b (p ∷ q ∷ r ∷ ps) e f ih h = (ground arith, ground arith, ground arith)

split_two : (sep : ℕ) (s a b : Text) → split sep s ≡ a ∷ b ∷ [] → IsJoined sep s a b
unfolding split
split_two sep [] a b h = (ground arith, ground arith, ground arith)
split_two sep (c ∷ s) a b h =
    cons_part_two sep c s a b (split sep s) refl (split-full sep s) (split_two sep s) h

two_parts-IsEmail :
    (email : Text) (ps : List Text) → split at_sign email ≡ ps → two_parts ps ≡ true → IsEmail email
two_parts-IsEmail email [] e h = cc
two_parts-IsEmail email ([] ∷ ps) e h = cc
two_parts-IsEmail email ((c ∷ a) ∷ []) e h = cc
two_parts-IsEmail email ((c ∷ a) ∷ [] ∷ ps) e h = cc
two_parts-IsEmail email ((c ∷ a) ∷ (d ∷ b) ∷ []) e h =
    let j = split_two at_sign email (c ∷ a) (d ∷ b) e in
    record {
      local_part = c ∷ a;
      domain = d ∷ b;
      joined = j.0;
      local_part_full = refl;
      domain_full = refl;
      local_part_plain = j.1;
      domain_plain = j.2;
    }
two_parts-IsEmail email ((c ∷ a) ∷ (d ∷ b) ∷ p ∷ ps) e h = cc

has-append : (sep : ℕ) (a b : Text) → has sep (a ++ (sep ∷ b)) ≡ true
has-append sep [] b = ground arith
has-append sep (c ∷ a) b = ground (arith, has-append sep a b)

two_parts-full :
    (a b : Text) → is_empty a ≡ false → is_empty b ≡ false → two_parts (a ∷ b ∷ []) ≡ true
two_parts-full [] b h g = cc
two_parts-full (c ∷ a) [] h g = cc
two_parts-full (c ∷ a) (d ∷ b) h g = refl

taken : (email : Text) → validate_email email ≡ none → two_parts (split at_sign email) ≡ true
unfolding validate_email
taken email h = ground arith

IsEmail-taken : (email : Text) → IsEmail email → validate_email email ≡ none
unfolding validate_email
IsEmail-taken email v =
    let parts = split-append at_sign v.local_part v.domain v.local_part_plain v.domain_plain in
    rw v.joined (
      rw parts (
        ground (
          arith,
          has-append at_sign v.local_part v.domain,
          two_parts-full v.local_part v.domain v.local_part_full v.domain_full,
          text_eq_iff (v.local_part ++ (at_sign ∷ v.domain)) [],
        )))

-- validateEmail takes exactly the texts `local@domain` with one `@` and neither side empty.
pub validate_email-IsEmail : (email : Text) → (validate_email email ≡ none) ↔ IsEmail email
validate_email-IsEmail email =
    (λ h. two_parts-IsEmail email (split at_sign email) refl (taken email h), IsEmail-taken email)
