-- ===== src/Jobs/Scheduler.antt =====
-- pkg/jobs/scheduler.go: the scheduler, over the jobs that Kubernetes has.
pub mod Queue
use jira_cdc_git.Prelude.{
  ℕ, ◌+◌, Bool, true, false, not, ◌&&◌, ◌||◌, Option, none, some, List, [], ◌∷◌, ◌++◌, any, length,
  if◌then◌else◌, slt, slt32, int_of32, ◌%◌, ◌^◌, sub_time,
}
use jira_cdc_git.Prelude.Text.{Text, codes, text_eq}
use jira_cdc_git.Prelude.Assoc.{Assoc, lookup}
use jira_cdc_git.Sync.Services.{Outcome, ok, fail}
use jira_cdc_git.Jobs.Types.{
  JobStatus, pending, running, succeeded, failed, unknown, SyncJobConfig, JobResult, JobFilter,
  QueueStatus, JobCondition, KubernetesJob,
}
use jira_cdc_git.Jobs.Manifest.{
  Returned, returned, failed_to, panicked, Texts, KubernetesJobScheduler, validate_job_config,
  generate_job_name, create_kubernetes_job,
}

-- The Jobs and the Pods of a namespace, in a world of type `W`, and the manager of the templates.
pub record Kubernetes (Q W : Type 0) : Type 0 where
  pub create : KubernetesJob Q → W → Outcome (KubernetesJob Q) × W
  pub get : Text → W → Outcome (KubernetesJob Q) × W
  -- the jobs with the label `app=jira-sync`, at most as many as the limit, if there is one
  pub list : Option ℕ → W → Outcome (List (KubernetesJob Q)) × W
  pub update : KubernetesJob Q → W → Outcome (KubernetesJob Q) × W
  pub delete : Text → W → Option Text × W
  -- the pods with the label `job-name` of a job
  pub delete_pods : Text → W → Option Text × W
  pub get_template : Text → W → Outcome (KubernetesJob Q) × W

-- The status that a condition shows, if it is True.
unfoldable pub condition_status : JobCondition → Option JobStatus
condition_status c =
    if text_eq c.status (codes "True")
    then (if text_eq c.type (codes "Complete")
        then some succeeded
        else if text_eq c.type (codes "Failed")
        then some failed
        else none)
    else none

-- The status of the first condition that shows one.
abbrev pub first_status : Option JobStatus → JobStatus → JobStatus
first_status (some s) rest = s
first_status none rest = rest

unfoldable pub conditions_status : List JobCondition → ℕ → JobStatus
conditions_status [] active = if slt32 0 active then running else pending
conditions_status (c ∷ cs) active = first_status (condition_status c) (conditions_status cs active)

unfoldable pub get_job_status : {Q : Type 0} → KubernetesJob Q → JobStatus
get_job_status j = conditions_status j.conditions j.active

-- The first message of a condition.
abbrev pub first_message : List JobCondition → Option Text
first_message [] = none
first_message (c ∷ cs) =
    let rest = first_message cs in if text_eq c.message [] then rest else some c.message

abbrev pub message_of : Option Text → Text → Text
message_of (some m) other = m
message_of none other = other

-- `print` is `%d`.
unfoldable pub get_job_status_message : {Q : Type 0} → (ℕ → Text) → KubernetesJob Q → Text
get_job_status_message print j = message_of (first_message j.conditions) (
    if slt32 0 j.active
    then codes "Running with " ++ (print j.active ++ codes " active pods")
    else codes "Job pending")

-- A label that is missing is empty.
abbrev pub text_of : Option Text → Text
text_of none = []
text_of (some t) = t

abbrev pub label_of : Option (Assoc Text) → Text
label_of none = []
label_of (some m) = text_of (lookup (codes "sync-id") m)

unfoldable pub extract_job_id : {Q : Type 0} → KubernetesJob Q → Text
extract_job_id j = label_of j.labels

-- The time from the start to the completion, if both are known.
abbrev pub duration_of : Option ℕ → Option ℕ → ℕ
duration_of none completion = 0
duration_of (some s) none = 0
duration_of (some s) (some c) = sub_time c s

abbrev pub has_map : Option (Assoc Text) → Bool
has_map none = false
has_map (some m) = true

-- The counts are read of a job with annotations.
unfoldable pub convert_job_to_result : {Q : Type 0} → KubernetesJob Q → Text → JobResult
convert_job_to_result j id = record {
  job_id = id;
  status = get_job_status j;
  start_time = j.start_time;
  completion_time = j.completion_time;
  duration = duration_of j.start_time j.completion_time;
  total_issues = if has_map j.annotations then int_of32 ((j.succeeded + j.failed) % 2 ^ 32) else 0;
  successful_sync = if has_map j.annotations then int_of32 j.succeeded else 0;
  failed_sync = if has_map j.annotations then int_of32 j.failed else 0;
}

abbrev pub status_text : JobStatus → Text
status_text pending = codes "pending"
status_text running = codes "running"
status_text succeeded = codes "succeeded"
status_text failed = codes "failed"
status_text unknown = codes "unknown"

abbrev pub is_nil : {A : Type 0} → List A → Bool
is_nil [] = true
is_nil (x ∷ xs) = false

-- The type is compared with the status, whose text is in lower case.
unfoldable pub matches_filter : JobResult → JobFilter → Bool
matches_filter r f =
    (is_nil f.type || any (λ t. text_eq t (status_text r.status)) f.type)
    && (is_nil f.status || any (λ s. text_eq (status_text s) (status_text r.status)) f.status)

abbrev pub matches : JobResult → Option JobFilter → Bool
matches r none = true
matches r (some f) = matches_filter r f

unfoldable pub list_results :
    {Q : Type 0} → Option JobFilter → List (KubernetesJob Q) → List JobResult
list_results f [] = []
list_results f (j ∷ js) =
    let rest = list_results f js in
    let id = extract_job_id j in
    let result = convert_job_to_result j id in
    if text_eq id [] then rest else if matches result f then result ∷ rest else rest

-- A limit that is set is positive.
abbrev pub limit_of : Option JobFilter → Option ℕ
limit_of none = none
limit_of (some f) = if slt 0 f.limit then some f.limit else none

abbrev pub no_jobs : QueueStatus
no_jobs = record {
  total_jobs = 0;
  pending_jobs = 0;
  running_jobs = 0;
  completed_jobs = 0;
  failed_jobs = 0;
}

unfoldable pub count_job : JobStatus → QueueStatus → QueueStatus
count_job pending q = record q { pending_jobs = q.pending_jobs + 1 }
count_job running q = record q { running_jobs = q.running_jobs + 1 }
count_job succeeded q = record q { completed_jobs = q.completed_jobs + 1 }
count_job failed q = record q { failed_jobs = q.failed_jobs + 1 }
count_job unknown q = q

unfoldable pub count_jobs : {Q : Type 0} → List (KubernetesJob Q) → QueueStatus → QueueStatus
count_jobs [] q = q
count_jobs (j ∷ js) q = count_jobs js (count_job (get_job_status j) q)

-- An error with what it is wrapped in.
abbrev pub mapped : {A B : Type 0} → Text → (A → B) → Outcome A → Outcome B
mapped p f (ok a) = ok (f a)
mapped p f (fail e) = fail (p ++ e)

module _ {Q W : Type 0} (t : Texts Q) (k : Kubernetes Q W) where
  unfoldable pub get_job : Text → W → Outcome JobResult × W
  get_job id w =
      let r = k.get (generate_job_name t id) w in
      (
        mapped (codes "failed to get job " ++ (id ++ codes ": ")) (λ j. convert_job_to_result j id)
            r.0,
        r.1,
      )

  unfoldable pub list_jobs : Option JobFilter → W → Outcome (List JobResult) × W
  list_jobs f w =
      let r = k.list (limit_of f) w in
      (mapped (codes "failed to list jobs: ") (list_results f) r.0, r.1)

  unfoldable pub delete_job : Text → W → Option Text × W
  delete_job id w = k.delete (generate_job_name t id) w

  unfoldable pub get_queue_status : W → Outcome QueueStatus × W
  get_queue_status w =
      let r = k.list none w in
      (
        mapped (codes "failed to list jobs for queue status: ")
            (λ js. count_jobs js (record no_jobs { total_jobs = length js })) r.0,
        r.1,
      )

  abbrev pub after_update : Text → Outcome (KubernetesJob Q) × W → Option Text × W
  after_update name (fail e, w) = (some (codes "failed to cancel job: " ++ e), w)
  after_update name (ok j, w) = k.delete_pods name w

  abbrev pub after_get : Text → Outcome (KubernetesJob Q) × W → Option Text × W
  after_get name (fail e, w) = (some (codes "failed to get job for cancellation: " ++ e), w)
  after_get name (ok j, w) = after_update name (k.update (record j { parallelism = some 0 }) w)

  unfoldable pub cancel_job : Text → W → Option Text × W
  cancel_job id w = let name = generate_job_name t id in after_get name (k.get name w)

  -- The result of a job that was submitted: its start, if Kubernetes has it, or its creation.
  abbrev pub start_or : ℕ → Option ℕ → Option ℕ
  start_or created none = some created
  start_or created (some s) = some s

  abbrev pub submitted : SyncJobConfig → Outcome (KubernetesJob Q) → Returned JobResult
  submitted c (fail e) = failed_to (codes "failed to submit job to Kubernetes: " ++ e)
  submitted c (ok j) = returned (record {
    job_id = c.id;
    status = pending;
    start_time = start_or c.created j.start_time;
    completion_time = none;
    duration = 0;
    total_issues = 0;
    successful_sync = 0;
    failed_sync = 0;
  })

  abbrev pub submit : SyncJobConfig → Returned (KubernetesJob Q) → W → Returned JobResult × W
  submit c panicked w = (panicked, w)
  submit c (failed_to e) w = (failed_to (codes "failed to create Kubernetes job: " ++ e), w)
  submit c (returned j) w = let r = k.create j w in (submitted c r.0, r.1)

  abbrev pub from_template :
      KubernetesJobScheduler
      → SyncJobConfig
      → Outcome (KubernetesJob Q)
      → W
      → Returned JobResult × W
  from_template s c (fail e) w = (failed_to (codes "failed to get job template: " ++ e), w)
  from_template s c (ok template) w = submit c (create_kubernetes_job t s c template) w

  abbrev pub checked :
      KubernetesJobScheduler → SyncJobConfig → Option Text → W → Returned JobResult × W
  checked s c (some e) w = (failed_to (codes "invalid job configuration: " ++ e), w)
  checked s c none w =
      let template = k.get_template c.type w in from_template s c template.0 template.1

  unfoldable pub create_job : KubernetesJobScheduler → SyncJobConfig → W → Returned JobResult × W
  create_job s c w = checked s c (validate_job_config c) w
