-- ===== src/Jobs/Manifest.antt =====
-- pkg/jobs/scheduler.go: the Kubernetes Job that is made for a sync.
use jira_cdc_git.Prelude.{
  ℕ, Bool, ◌||◌, Option, none, some, List, [], ◌∷◌, ◌++◌, ◌==◌, map, if◌then◌else◌, slt,
}
use jira_cdc_git.Prelude.Text.{Text, codes, text_eq}
use jira_cdc_git.Prelude.Assoc.{Assoc}
use jira_cdc_git.Jobs.Types.{JobResourceRequirements, SyncJobConfig, Quantities, KubernetesJob}

-- What a call returns, or that it panics.
pub data Returned {ℓ} (A : Type ℓ) : Type ℓ where
  returned : A → Returned A
  failed_to : Text → Returned A
  panicked : Returned A

-- strings.ToLower, resource.ParseQuantity, the printing of an int (`%d`), of a duration (`%v`) and of
-- a time.
pub record Texts (Q : Type 0) : Type 0 where
  pub to_lower : Text → Text
  pub parse_quantity : Text → Option Q
  pub print : ℕ → Text
  pub print_duration : ℕ → Text
  pub print_time : ℕ → Text

pub record KubernetesJobScheduler : Type 0 where
  pub namespace : Text
  pub default_image : Text

unfoldable pub validate_job_config : SyncJobConfig → Option Text
validate_job_config c =
    if text_eq c.id []
    then some (codes "job ID is required")
    else if text_eq c.target []
    then some (codes "target is required")
    else if text_eq c.repository []
    then some (codes "repository is required")
    else if text_eq c.type []
    then some (codes "job type is required")
    else none

abbrev pub args_if : Bool → List Text → List Text
args_if b a = if b then a else []

unfoldable pub generate_job_labels : SyncJobConfig → Assoc Text
generate_job_labels c =
    (codes "app", codes "jira-sync")
    ∷ (codes "sync-type", c.type)
    ∷ (codes "sync-id", c.id)
    ∷ (codes "managed-by", codes "jira-sync-scheduler")
    ∷ []

unfoldable pub generate_environment_vars : SyncJobConfig → List (Text × Text)
generate_environment_vars c =
    (codes "SYNC_JOB_ID", c.id)
    ∷ (codes "LOG_LEVEL", codes "info")
    ∷ (if c.safe_mode then (codes "SPIKE_SAFE_MODE", codes "true") ∷ [] else [])

abbrev pub or_current {ℓ} : {A : Type ℓ} → Option A → Option A → Option A
or_current (some a) current = some a
or_current none current = current

infixl 5 ◌>>=◌
abbrev pub ◌>>=◌ {ℓ} : {A B : Type ℓ} → Returned A → (A → Returned B) → Returned B
returned a >>= f = f a
failed_to e >>= f = failed_to e
panicked >>= f = panicked

abbrev pub parsed : {Q : Type 0} → Option Q → Returned (Option Q)
parsed none = panicked
parsed (some q) = returned (some q)

module _ {Q : Type 0} (t : Texts Q) where
  -- Underscores become dashes.
  unfoldable pub generate_job_name : Text → Text
  generate_job_name id = codes "jira-sync-" ++ t.to_lower (map (λ c. if c == 95 then 45 else c) id)

  unfoldable pub generate_job_annotations : SyncJobConfig → Assoc Text
  generate_job_annotations c =
      (codes "jira-sync/target", c.target)
      ∷ (codes "jira-sync/repository", c.repository)
      ∷ (codes "jira-sync/created", t.print_time c.created)
      ∷ []

  unfoldable pub generate_container_args : SyncJobConfig → List Text
  generate_container_args c =
      codes "sync"
      ∷ ((if text_eq c.type (codes "single") || text_eq c.type (codes "batch")
            then (codes "--issues=" ++ c.target) ∷ []
            else if text_eq c.type (codes "jql")
            then (codes "--jql=" ++ c.target) ∷ []
            else [])
          ++ (((codes "--repo=" ++ c.repository) ∷ [])
              ++ (args_if (slt 0 c.concurrency)
                    ((codes "--concurrency=" ++ t.print c.concurrency) ∷ [])
                  ++ (args_if (slt 0 c.rate_limit)
                        ((codes "--rate-limit=" ++ t.print_duration c.rate_limit) ∷ [])
                      ++ (args_if c.incremental (codes "--incremental" ∷ [])
                          ++ (args_if c.force (codes "--force" ∷ [])
                              ++ args_if c.dry_run (codes "--dry-run" ∷ [])))))))

  -- `resource.MustParse` of a quantity that is set: it panics at what is none.
  unfoldable pub must_parse : Text → Returned (Option Q)
  must_parse [] = returned none
  must_parse (c ∷ s) = parsed (t.parse_quantity (c ∷ s))

  unfoldable pub build_resource_requirements : JobResourceRequirements → Returned (Quantities Q)
  build_resource_requirements r = do
    request_cpu ← must_parse r.requests_cpu
    request_memory ← must_parse r.requests_memory
    limit_cpu ← must_parse r.limits_cpu
    limit_memory ← must_parse r.limits_memory
    returned (record {
      request_cpu = request_cpu;
      request_memory = request_memory;
      limit_cpu = limit_cpu;
      limit_memory = limit_memory;
    })

  -- The template's own requirements, if the configuration has none.
  abbrev pub required_resources :
      Option JobResourceRequirements → Quantities Q → Returned (Quantities Q)
  required_resources none q = returned q
  required_resources (some r) q = build_resource_requirements r

  unfoldable pub create_kubernetes_job :
      KubernetesJobScheduler → SyncJobConfig → KubernetesJob Q → Returned (KubernetesJob Q)
  create_kubernetes_job s c template = do
    resources ← required_resources c.resources template.resources
    returned (record template {
      name = generate_job_name c.id;
      namespace = s.namespace;
      labels = some (generate_job_labels c);
      annotations = some (generate_job_annotations c);
      args = generate_container_args c;
      image = if text_eq c.image [] then s.default_image else c.image;
      resources = resources;
      parallelism = or_current c.parallelism template.parallelism;
      completions = or_current c.completions template.completions;
      active_deadline_seconds = or_current c.timeout_sec template.active_deadline_seconds;
      env = template.env ++ generate_environment_vars c;
    })
