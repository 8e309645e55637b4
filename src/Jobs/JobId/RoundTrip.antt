-- ===== src/Jobs/JobId/RoundTrip.antt =====
-- pkg/jobs/job_id.go: parsing an ID that was generated.
use jira_cdc_git.Prelude.{
  ℕ, ◌≡◌, refl, ap, ◌∙◌, false, List, [], ◌∷◌, ◌++◌, append_assoc, length, ◌==◌, ltb, if◌then◌else◌,
}
use jira_cdc_git.Prelude.Text.{Text}
use jira_cdc_git.Prelude.FilePath.{split}
use jira_cdc_git.Jobs.JobId.{
  generate, job_type_of, info_of, parsed, refused, invalid_format, parse_job_id, prefix_or_job,
}

-- No byte of the text is a dash.
pub data IsDashless : Text → Type 0 where
  empty : IsDashless []
  more : {c : ℕ} {s : Text} → (c == b'-') ≡ false → IsDashless s → IsDashless (c ∷ s)

pub split_dashless : (w : Text) → IsDashless w → split b'-' w ≡ w ∷ []
unfolding split
split_dashless [] h = refl
split_dashless (c ∷ w) (more d h) = rw (d, split_dashless w h) refl

split-append : (w s : Text) → IsDashless w → split b'-' (w ++ b'-' ∷ s) ≡ w ∷ split b'-' s
unfolding split
split-append [] s h = refl
split-append (c ∷ w) s (more d h) = rw (d, split-append w s h) refl

split_id :
    (prefix date time suffix : Text)
    → IsDashless prefix
    → IsDashless date
    → IsDashless time
    → IsDashless suffix
    → split b'-' (prefix ++ b'-' ∷ ((date ++ b'-' ∷ time) ++ b'-' ∷ suffix))
      ≡ prefix ∷ date ∷ time ∷ suffix ∷ []
split_id prefix date time suffix hp hd ht hs =
    split-append prefix _ hp
    ∙ ap (λ (ws : List Text). prefix ∷ ws)
        (ap (λ (s : Text). split b'-' s) (append_assoc date (b'-' ∷ time) (b'-' ∷ suffix))
          ∙ (split-append date (time ++ b'-' ∷ suffix) hd
              ∙ ap (λ (ws : List Text). date ∷ ws)
                  (split-append time suffix ht
                    ∙ ap (λ (ws : List Text). time ∷ ws) (split_dashless suffix hs))))

no_timestamp : (time : Text) → length time ≡ 6 → (if length time == 15 then time else []) ≡ []
no_timestamp time h = rw h refl

parse_split :
    (id p d t s : Text)
    → split b'-' id ≡ p ∷ d ∷ t ∷ s ∷ []
    → parse_job_id id ≡ parsed (info_of id (p ∷ d ∷ t ∷ s ∷ []))
unfolding parse_job_id split
parse_split [] p d t s h = cc
parse_split (c ∷ id) p d t s h = parsed_at (split b'-' (c ∷ id)) h
  where
    parsed_at :
        (parts : List Text)
        → parts ≡ p ∷ d ∷ t ∷ s ∷ []
        → (if ltb (length parts) 3 then refused invalid_format else parsed (info_of (c ∷ id) parts))
          ≡ parsed (info_of (c ∷ id) (p ∷ d ∷ t ∷ s ∷ []))
    parsed_at parts e = rw e refl

prefix_or_job-IsDashless : (prefix : Text) → IsDashless prefix → IsDashless (prefix_or_job prefix)
prefix_or_job-IsDashless [] h = more refl (more refl (more refl empty))
prefix_or_job-IsDashless (c ∷ prefix) h = h

-- Parsing an ID that was generated returns its prefix (`job` for none), its random suffix and the type
-- of that prefix, where neither of these nor the two halves of the time contains a dash. The time stamp
-- is lost: the layout of the time has a dash, and the six digits after it are not the fifteen bytes looked for.
pub parse-generate :
    (prefix date time suffix : Text)
    → IsDashless prefix
    → IsDashless date
    → IsDashless time
    → IsDashless suffix
    → length time ≡ 6
    → let id = generate (date ++ b'-' ∷ time) suffix prefix in
      parse_job_id id
      ≡ parsed (record {
        original_id = id;
        prefix = prefix_or_job prefix;
        timestamp = [];
        suffix = suffix;
        job_type = job_type_of (prefix_or_job prefix);
      })
unfolding generate
parse-generate prefix date time suffix hp hd ht hs n =
    let p = prefix_or_job prefix in
    let id = generate (date ++ b'-' ∷ time) suffix prefix in
    parse_split id p date time suffix
      (split_id p date time suffix (prefix_or_job-IsDashless prefix hp) hd ht hs)
    ∙ ap
        (λ (t : Text). parsed (record {
          original_id = id;
          prefix = p;
          timestamp = t;
          suffix = suffix;
          job_type = job_type_of p;
        }))
        (no_timestamp time n)
