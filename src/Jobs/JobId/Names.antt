-- ===== src/Jobs/JobId/Names.antt =====
-- pkg/jobs/job_id.go: the shape of the Kubernetes names.
use jira_cdc_git.Prelude.{
  ℕ, ◌≤◌, ◌≡◌, refl, true, [], ◌∷◌, ◌++◌, suc, zero, length, take, arith, Bool-cases, inl, inr, map,
}
use jira_cdc_git.Prelude.Text.{Text, codes}
use jira_cdc_git.Jobs.JobId.{
  is_alpha_numeric, last_byte, dash_for, keep_byte, prefixed, trim_end, format_job_name,
}

length-take-le : (n : ℕ) (s : Text) → length (take n s) ≤ n
length-take-le zero s = omega arith
length-take-le (suc n) [] = omega arith
length-take-le (suc n) (c ∷ s) = omega (arith, length-take-le n s)

length-trim_end : (s : Text) → length (trim_end s) ≤ length s
unfolding trim_end
length-trim_end [] = omega arith
length-trim_end (c ∷ s) = ground (arith, length-trim_end s)

-- The first and the last byte of a text that is not empty.
pub record IsFramed (s : Text) : Type 0 where
  pub first : ℕ
  pub rest : Text
  pub whole : s ≡ first ∷ rest
  pub starts : is_alpha_numeric first ≡ true
  pub ends : is_alpha_numeric (last_byte first rest) ≡ true

keep_byte_alnum : (c : ℕ) (t : Text) → is_alpha_numeric c ≡ true → keep_byte c t ≡ c ∷ t
keep_byte_alnum c [] h = rw h refl
keep_byte_alnum c (d ∷ t) h = refl

keep_byte_ends :
    (c d : ℕ) (t : Text)
    → is_alpha_numeric c ≡ true
    → is_alpha_numeric (last_byte c t) ≡ true
    → is_alpha_numeric (last_byte c (keep_byte d t)) ≡ true
unfolding last_byte
keep_byte_ends c d [] h e = elim (Bool-cases (is_alpha_numeric d)) [
  | inl a ↦ rw a a
  | inr a ↦ rw a h
]
keep_byte_ends c d (b ∷ t) h e = e

trim_end_ends :
    (c : ℕ) (s : Text)
    → is_alpha_numeric c ≡ true
    → is_alpha_numeric (last_byte c (trim_end s)) ≡ true
unfolding trim_end last_byte
trim_end_ends c [] h = h
trim_end_ends c (d ∷ s) h = keep_byte_ends c d (trim_end s) h (trim_end_ends c s h)

trim_end-IsFramed : (c : ℕ) (s : Text) → is_alpha_numeric c ≡ true → IsFramed (trim_end (c ∷ s))
unfolding trim_end
trim_end-IsFramed c s h = record {
  first = c;
  rest = trim_end s;
  whole = keep_byte_alnum c (trim_end s) h;
  starts = h;
  ends = trim_end_ends c s h;
}

starts_j : is_alpha_numeric b'j' ≡ true
unfolding is_alpha_numeric
starts_j = refl

-- The texts that a job name is cut from start with an alphanumeric byte.
prefixed-IsFramed : (c : ℕ) (name : Text) → IsFramed (trim_end (take 63 (prefixed (c ∷ name))))
unfolding prefixed
prefixed-IsFramed c name = elim (Bool-cases (is_alpha_numeric c)) [
  | inl h ↦ rw h (trim_end-IsFramed c (take 62 name) h)
  | inr h ↦ rw h (trim_end-IsFramed b'j' (take 62 (codes "ob-" ++ c ∷ name)) starts_j)
]

-- The job name of an ID that `ToLower` does not leave empty is not empty, starts and ends with an
-- alphanumeric byte, and has at most 63 bytes.
pub format_job_name-IsFramed :
    (to_lower : Text → Text) (id : Text) (c : ℕ) (lowered : Text)
    → to_lower id ≡ c ∷ lowered
    → IsFramed (format_job_name to_lower id) × (length (format_job_name to_lower id) ≤ 63)
unfolding format_job_name
format_job_name-IsFramed to_lower id c lowered h =
    let name = map (dash_for b'.') (map (dash_for b'_') (to_lower id)) in
    (
      rw h (
          prefixed-IsFramed (dash_for b'.' (dash_for b'_' c))
            (map (dash_for b'.') (map (dash_for b'_') lowered))),
      omega (arith, length-trim_end (take 63 (prefixed name)), length-take-le 63 (prefixed name)),
    )
