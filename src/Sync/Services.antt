-- ===== src/Sync/Services.antt =====
-- The interfaces that the sync engines are given: client.Client (pkg/client), schema.FileWriter
-- (pkg/schema), git.Repository (pkg/git), links.LinkManager (pkg/links), the context and the clock.
-- `W` is the state of the world that they act on; a call returns its outcome and the next world.
use jira_cdc_git.Prelude.{ℕ, Bool, List}
use jira_cdc_git.Prelude.Text.{Text}
use jira_cdc_git.Jira.{Issue}

-- A value with a nil error, or an error with its message.
pub data Outcome {ℓ} (A : Type ℓ) : Type ℓ where
  ok : A → Outcome A
  fail : Text → Outcome A

pub record Services (W : Type 0) : Type 0 where
  pub get_issue : Text → W → Outcome Issue × W
  pub search_issues : Text → W → Outcome (List Issue) × W
  pub write_issue : Issue → Text → W → Outcome Text × W
  pub create_links : Issue → Text → W → Outcome (Unit {0}) × W
  pub commit_issue : Text → Text → Issue → W → Outcome (Unit {0}) × W
  -- is `ctx.Done()` closed?
  pub cancelled : W → Bool × W
  -- `time.Now()`
  pub now : W → ℕ × W
