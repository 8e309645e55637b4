-- ===== src/Examples/Named.antt =====
-- Job IDs.
use jira_cdc_git.Prelude.{◌≡◌, ◌≤◌, refl, [], ◌∷◌, ◌++◌, length}
use jira_cdc_git.Prelude.Text.{Text, codes}
use jira_cdc_git.Jobs.JobId.{
  generate, parse_job_id, parsed, job_type_of, format_job_name, trim_end, prefixed,
  is_alpha_numeric,
}
use jira_cdc_git.Jobs.JobId.Names.{IsFramed, format_job_name-IsFramed}
use jira_cdc_git.Jobs.JobId.RoundTrip.{IsDashless, empty, more, parse-generate}
use jira_cdc_git.Schema.{extract_project_key}
use jira_cdc_git.Schema.ProjectKey.{extract_project_key-append}

abbrev date : Text
date = codes "20250102"

abbrev time : Text
time = codes "150405"

date-IsDashless : IsDashless date
date-IsDashless =
    more refl
      (more refl (more refl (more refl (more refl (more refl (more refl (more refl empty)))))))

time-IsDashless : IsDashless time
time-IsDashless = more refl (more refl (more refl (more refl (more refl (more refl empty)))))

batch-IsDashless : IsDashless (codes "batch")
batch-IsDashless = more refl (more refl (more refl (more refl (more refl empty))))

suffix-IsDashless : IsDashless (codes "a1")
suffix-IsDashless = more refl (more refl empty)

parse-generate_example :
    let id = generate (date ++ b'-' ∷ time) (codes "a1") (codes "batch") in
    parse_job_id id
    ≡ parsed (record {
      original_id = id;
      prefix = codes "batch";
      timestamp = [];
      suffix = codes "a1";
      job_type = job_type_of (codes "batch");
    })
parse-generate_example =
    parse-generate (codes "batch") date time (codes "a1") batch-IsDashless date-IsDashless
      time-IsDashless suffix-IsDashless refl

format_job_name-IsFramed_example :
    IsFramed (format_job_name (λ t. t) (codes "_a.b_"))
    × (length (format_job_name (λ t. t) (codes "_a.b_")) ≤ 63)
format_job_name-IsFramed_example =
    format_job_name-IsFramed (λ t. t) (codes "_a.b_") b'_' (codes "a.b_") refl

format_job_name_test :
    (format_job_name (λ t. t) (codes "_a.b_") ≡ codes "job--a-b")
    × (format_job_name (λ t. t) (codes "batch_7..") ≡ codes "batch-7")
unfolding format_job_name trim_end prefixed is_alpha_numeric
format_job_name_test = (refl, refl)

extract_project_key-append_example :
    (extract_project_key (codes "MY-PROJECT" ++ b'-' ∷ codes "a1") ≡ codes "MY-PROJECT")
    × (extract_project_key (codes "a1") ≡ [])
extract_project_key-append_example =
    extract_project_key-append (codes "MY-PROJECT") (codes "a1") suffix-IsDashless
