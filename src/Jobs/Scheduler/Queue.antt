-- ===== src/Jobs/Scheduler/Queue.antt =====
-- pkg/jobs/scheduler.go: the counts of the queue, and the filter of a listing.
use jira_cdc_git.Prelude.{
  ℕ, suc, ◌+◌, ◌≡◌, refl, ◌⊎◌, inl, inr, Bool, true, false, none, some, List, [], ◌∷◌, any, length,
  arith,
}
use jira_cdc_git.Prelude.Text.{Text, codes, text_eq}
use jira_cdc_git.Sync.Services.{Outcome, ok, fail}
use jira_cdc_git.Jobs.Types.{
  JobStatus, pending, running, succeeded, failed, unknown, JobResult, JobFilter, QueueStatus,
  JobCondition, KubernetesJob,
}
use jira_cdc_git.Jobs.Manifest.{Texts}
use jira_cdc_git.Jobs.Scheduler.{
  Kubernetes, condition_status, first_status, conditions_status, get_job_status, extract_job_id,
  convert_job_to_result, status_text, is_nil, matches_filter, list_results, no_jobs, count_job,
  count_jobs, get_queue_status, mapped,
}

abbrev pub is_known : JobStatus → Bool
is_known unknown = false
is_known _ = true

condition_status-known :
    (c : JobCondition) (rest : JobStatus)
    → is_known rest ≡ true
    → is_known (first_status (condition_status c) rest) ≡ true
unfolding condition_status
condition_status-known c rest h = ground arith

conditions_status-known :
    (cs : List JobCondition) (active : ℕ) → is_known (conditions_status cs active) ≡ true
unfolding conditions_status
conditions_status-known [] active = ground arith
conditions_status-known (c ∷ cs) active =
    condition_status-known c (conditions_status cs active) (conditions_status-known cs active)

abbrev pub counted : QueueStatus → ℕ
counted q = q.pending_jobs + (q.running_jobs + (q.completed_jobs + q.failed_jobs))

counted-count_job :
    (s : JobStatus) (q : QueueStatus)
    → is_known s ≡ true
    → (counted (count_job s q) ≡ suc (counted q)) × ((count_job s q).total_jobs ≡ q.total_jobs)
unfolding count_job
counted-count_job pending q h = (omega arith, refl)
counted-count_job running q h = (omega arith, refl)
counted-count_job succeeded q h = (omega arith, refl)
counted-count_job failed q h = (omega arith, refl)
counted-count_job unknown q h = cc

counted-count_jobs :
    {Q : Type 0} (js : List (KubernetesJob Q)) (q : QueueStatus)
    → (counted (count_jobs js q) ≡ length js + counted q)
      × ((count_jobs js q).total_jobs ≡ q.total_jobs)
unfolding count_jobs
counted-count_jobs [] q = (omega arith, refl)
counted-count_jobs (j ∷ js) q =
    let s = get_job_status j in
    let one =
      counted-count_job s q
        (unfold get_job_status in conditions_status-known j.conditions j.active) in
    let all = counted-count_jobs js (count_job s q) in (omega (arith, all.0, one.0), cc)

queue_of :
    {Q : Type 0} (r : Outcome (List (KubernetesJob Q))) (p : Text) (q : QueueStatus)
    → mapped p (λ js. count_jobs js (record no_jobs { total_jobs = length js })) r ≡ ok q
    → counted q ≡ q.total_jobs
queue_of (fail e) p q h = cc
queue_of (ok js) p q h =
    let c = counted-count_jobs js (record no_jobs { total_jobs = length js }) in
    ground (arith, c.0, c.1)

-- In a status of the queue that GetQueueStatus returns, the pending, the running, the completed and
-- the failed jobs make up the total.
pub get_queue_status-counted :
    {Q W : Type 0} (t : Texts Q) (k : Kubernetes Q W) (w : W) (q : QueueStatus)
    → (get_queue_status t k w).0 ≡ ok q
    → counted q ≡ q.total_jobs
unfolding get_queue_status
get_queue_status-counted t k w q h =
    queue_of (k.list none w).0 (codes "failed to list jobs for queue status: ") q h

-- The type of a sync job.
abbrev pub IsJobType : Text → Type 0
IsJobType t = (t ≡ codes "single") ⊎ ((t ≡ codes "batch") ⊎ (t ≡ codes "jql"))

abbrev pub AreJobTypes : List Text → Type 0
AreJobTypes [] = Unit
AreJobTypes (t ∷ ts) = IsJobType t × AreJobTypes ts

single-status : (s : JobStatus) → text_eq (codes "single") (status_text s) ≡ false
unfolding text_eq
single-status pending = refl
single-status _ = refl

batch-status : (s : JobStatus) → text_eq (codes "batch") (status_text s) ≡ false
unfolding text_eq
batch-status pending = refl
batch-status _ = refl

jql-status : (s : JobStatus) → text_eq (codes "jql") (status_text s) ≡ false
unfolding text_eq
jql-status pending = refl
jql-status _ = refl

type-status : (t : Text) (s : JobStatus) → IsJobType t → text_eq t (status_text s) ≡ false
type-status t s (inl e) = rw e (single-status s)
type-status t s (inr (inl e)) = rw e (batch-status s)
type-status t s (inr (inr e)) = rw e (jql-status s)

types-status :
    (ts : List Text) (s : JobStatus)
    → AreJobTypes ts
    → any (λ t. text_eq t (status_text s)) ts ≡ false
types-status [] s h = refl
types-status (t ∷ ts) s h = ground (arith, type-status t s h.0, types-status ts s h.1)

matches_filter-types :
    (r : JobResult) (f : JobFilter)
    → AreJobTypes f.type
    → is_nil f.type ≡ false
    → matches_filter r f ≡ false
unfolding matches_filter
matches_filter-types r f h full = ground (arith, types-status f.type r.status h, full)

-- A listing whose filter asks for one or more types of sync jobs is empty, whatever jobs there are.
pub list_results-types :
    {Q : Type 0} (f : JobFilter) (js : List (KubernetesJob Q))
    → AreJobTypes f.type
    → is_nil f.type ≡ false
    → list_results (some f) js ≡ []
unfolding list_results
list_results-types f [] h full = refl
list_results-types f (j ∷ js) h full =
    let result = convert_job_to_result j (extract_job_id j) in
    ground (arith, list_results-types f js h full, matches_filter-types result f h full)
