-- ===== src/Operator/Cluster.antt =====
-- What the controllers of internal/operator/controllers are given: the Kubernetes API, the clock, the
-- printing of values, and the client of the API server (internal/operator/apiclient).
use jira_cdc_git.Prelude.{ℕ, Option, none, some, List}
use jira_cdc_git.Prelude.Text.{Text}
use jira_cdc_git.Sync.Services.{Outcome, ok, fail}
use jira_cdc_git.Operator.Types.{Condition, JiraSyncSpec, JiraSync}
use jira_cdc_git.Operator.Api.{ApiRequest, SyncJobResponse, JobStatusResponse}

-- What `client.Get` finds, or the error of a read.
pub data Found {ℓ} (A : Type ℓ) : Type ℓ where
  found : A → Found A
  missing : Found A
  broken : Text → Found A

-- The fields of an APIServer resource that a sync reads.
pub record ApiServer : Type 0 where
  pub phase : Text
  pub conditions : List Condition
  pub endpoint : Text

-- The counts of pods of a Kubernetes Job that are read.
pub record Job : Type 0 where
  pub succeeded : ℕ
  pub failed : ℕ

-- `W` is the state of the world, `F` the type of a float. A successful update returns the resource as
-- the API server then has it, which replaces the one in memory.
pub record Cluster (F W : Type 0) : Type 0 where
  pub now : W → ℕ × W
  pub get_sync : W → Found (JiraSync F) × W
  pub update : JiraSync F → W → Outcome (JiraSync F) × W
  pub update_status : JiraSync F → W → Outcome (JiraSync F) × W
  pub list_api_servers : W → Outcome (List ApiServer) × W
  pub get_job : Text → Text → W → Found Job × W
  pub delete_job : Text → Text → W → Found (Unit {0}) × W
  -- an event of a type, with a reason and a message
  pub event : Text → Text → Text → W → W
  pub zero_float : F
  -- `%d` and strconv.Itoa; strconv.Atoi
  pub print : ℕ → Text
  pub atoi : Text → Option ℕ
  -- `d.String()`, `t.Unix()` printed, `t.Format(time.RFC3339)`
  pub print_duration : ℕ → Text
  pub print_unix : ℕ → Text
  pub print_time : ℕ → Text
  -- the SHA-256 of a specification printed by `%+v`, in hexadecimal
  pub hash_spec : JiraSyncSpec F → Text
  -- `time.Duration(float64(d) * f)`
  pub scale : ℕ → F → ℕ

-- The client of the API server, at a host.
pub record Api (W : Type 0) : Type 0 where
  pub trigger : Text → ApiRequest → W → Outcome SyncJobResponse × W
  pub get_job_status : Text → Text → W → Outcome JobStatusResponse × W

-- What a reconciler holds while it handles a resource.
pub record Scene (F W : Type 0) : Type 0 where
  pub object : JiraSync F
  pub api_host : Text
  pub world : W

abbrev pub Act : Type 0 → Type 0 → Type 0 → Type 0
Act F W A = Scene F W → A × Scene F W

module _ {F W : Type 0} where
  unfoldable pub pure : {A : Type 0} → A → Act F W A
  pure a e = (a, e)

  infixl 5 ◌>>=◌ ◌>>◌
  unfoldable pub ◌>>=◌ : {A B : Type 0} → Act F W A → (A → Act F W B) → Act F W B
  (m >>= f) e = let (a, e') = m e in f a e'

  abbrev pub ◌>>◌ : {A B : Type 0} → Act F W A → Act F W B → Act F W B
  m >> n = m >>= λ _. n

  unfoldable pub call : {A : Type 0} → (W → A × W) → Act F W A
  call f e = let (a, w) = f e.world in (a, record e { world = w })

  unfoldable pub get : Act F W (JiraSync F)
  get e = (e.object, e)

  unfoldable pub modify : (JiraSync F → JiraSync F) → Act F W (Unit {0})
  modify f e = (tt, record e { object = f e.object })

  -- The resource after an update, and the update's error.
  abbrev pub updated : Scene F W → Outcome (JiraSync F) × W → Option Text × Scene F W
  updated e (ok o, w) = (none, record e { object = o; world = w })
  updated e (fail m, w) = (some m, record e { world = w })

  -- `r.Update(ctx, jiraSync)` and `r.Status().Update(ctx, jiraSync)`.
  unfoldable pub save : Cluster F W → Act F W (Option Text)
  save k e = updated e (k.update e.object e.world)

  unfoldable pub save_status : Cluster F W → Act F W (Option Text)
  save_status k e = updated e (k.update_status e.object e.world)

  -- A call of the client of the API server, at the reconciler's host.
  unfoldable pub at_host : {A : Type 0} → (Text → W → A × W) → Act F W A
  at_host f e = let (a, w) = f e.api_host e.world in (a, record e { world = w })
