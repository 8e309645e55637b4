-- ===== src/Schema/ProjectKey.antt =====
-- pkg/schema/yaml.go: the project of an issue's key.
use jira_cdc_git.Prelude.{
  ℕ, ◌≡◌, refl, sym, ◌∙◌, ap, true, List, [], ◌∷◌, ◌++◌, ◌==◌, arith, Bool-cases, inl, inr,
}
use jira_cdc_git.Prelude.Text.{Text, codes}
use jira_cdc_git.Prelude.FilePath.{split, join_with}
use jira_cdc_git.Jobs.JobId.RoundTrip.{IsDashless, split_dashless}
use jira_cdc_git.Schema.{drop_last, project_of, extract_project_key}

split-full : (s : Text) → (w : Text) × ((ws : List Text) × (split b'-' s ≡ w ∷ ws))
unfolding split
split-full [] = ([], ([], refl))
split-full (c ∷ s) = elim (Bool-cases (c == b'-')) [
  | inl e ↦ ([], (split b'-' s, rw e refl))
  | inr e ↦ let f = split-full s in (c ∷ f.0, (f.1.0, rw (e, f.1.1) refl))
]

-- A last part without a dash is the last of the split.
split-snoc : (p n : Text) → IsDashless n → split b'-' (p ++ b'-' ∷ n) ≡ split b'-' p ++ n ∷ []
unfolding split
split-snoc [] n h = rw (split_dashless n h) refl
split-snoc (c ∷ p) n h =
    let f = split-full p in
    elim (Bool-cases (c == b'-')) [
      | inl e ↦ rw (e, split-snoc p n h) refl
      | inr e ↦ rw (e, split-snoc p n h, f.1.1) refl
    ]

join_with-cons :
    (c : ℕ) (w : Text) (ws : List Text)
    → join_with (codes "-") ((c ∷ w) ∷ ws) ≡ c ∷ join_with (codes "-") (w ∷ ws)
unfolding join_with
join_with-cons c w [] = refl
join_with-cons c w (v ∷ ws) = refl

same_dash : (c : ℕ) → (c == b'-') ≡ true → c ≡ b'-'
same_dash c h = ground arith

join_with-split : (p : Text) → join_with (codes "-") (split b'-' p) ≡ p
unfolding split join_with
join_with-split [] = refl
join_with-split (c ∷ p) =
    let f = split-full p in
    let rest = ap (join_with (codes "-")) (sym f.1.1) ∙ join_with-split p in
    elim (Bool-cases (c == b'-')) [
      | inl e ↦ rw (e, f.1.1) (ap (λ t. b'-' ∷ t) rest ∙ ap (λ d. d ∷ p) (sym (same_dash c e)))
      | inr e ↦ rw (e, f.1.1) (join_with-cons c f.0 f.1.0 ∙ ap (λ t. c ∷ t) rest)
    ]

drop_last-snoc : (ws : List Text) (n : Text) → drop_last (ws ++ n ∷ []) ≡ ws
drop_last-snoc [] n = refl
drop_last-snoc (w ∷ []) n = refl
drop_last-snoc (w ∷ v ∷ ws) n = ap (λ vs. w ∷ vs) (drop_last-snoc (v ∷ ws) n)

project_of-snoc :
    (ws : List Text) (w n : Text) → project_of (w ∷ ws ++ n ∷ []) ≡ join_with (codes "-") (w ∷ ws)
project_of-snoc [] w n = refl
project_of-snoc (v ∷ ws) w n = ap (join_with (codes "-")) (drop_last-snoc (w ∷ v ∷ ws) n)

-- The project of a key with a dash is what stands before its last dash, dashes included; a key without
-- a dash has none.
pub extract_project_key-append :
    (p n : Text)
    → IsDashless n
    → (extract_project_key (p ++ b'-' ∷ n) ≡ p) × (extract_project_key n ≡ [])
unfolding extract_project_key
extract_project_key-append p n h =
    let f = split-full p in
    (
      ap project_of (split-snoc p n h ∙ ap (λ ws. ws ++ n ∷ []) f.1.1)
          ∙ project_of-snoc f.1.0 f.0 n
          ∙ ap (join_with (codes "-")) (sym f.1.1)
          ∙ join_with-split p,
      ap project_of (split_dashless n h),
    )
