-- ===== src/Examples/Samples.antt =====
-- A repository with one tracked issue, and services that answer without changing the world.
use jira_cdc_git.Prelude.{ℕ, true, false, if◌then◌else◌, none, some, [], ◌∷◌}
use jira_cdc_git.Prelude.Text.{Text, codes, text_eq}
use jira_cdc_git.Jira.{Issue}
use jira_cdc_git.State.Types.{issues, SyncConfig, IssueState, RepositoryInfo, State, StateFile}
use jira_cdc_git.State.Heap.{Heap}
use jira_cdc_git.State.Platform.{yaml, Platform, Disk, Faults}
use jira_cdc_git.State.Persist.{FileStateManager}
use jira_cdc_git.State.Backup.{new_state}
use jira_cdc_git.State.Operations.{started_operation}
use jira_cdc_git.Sync.Services.{Outcome, ok, fail, Services}
use jira_cdc_git.Sync.Batch.{Env, empty_batch}
use jira_cdc_git.Sync.Runtime.{Runtime, Session}

abbrev pub repo : Text
repo = codes "/r"

abbrev pub issue_path : Text
issue_path = codes "/r/projects/PROJ/issues/PROJ-1.yaml"

abbrev pub key_1 : Text
key_1 = codes "PROJ-1"

abbrev pub key_2 : Text
key_2 = codes "PROJ-2"

abbrev pub manager : FileStateManager
manager = record { format = yaml }

abbrev pub no_faults : Faults
no_faults = record {
  read = λ path. false;
  stat = λ path. false;
  write = false;
  rename = false;
  torn = none;
  copy = false;
  remove = λ path. false;
}

abbrev pub tracked : IssueState
tracked = record {
  key = key_1;
  project_key = codes "PROJ";
  last_synced = 40;
  last_modified = 40;
  last_updated = 30;
  version = 1;
  file_path = issue_path;
  file_size = 2;
  checksum = codes "ab";
  sync_status = codes "success";
  error_message = [];
  sync_count = 1;
}

abbrev pub repository : RepositoryInfo
repository = record { path = repo; branch = codes "main"; remote_url = []; initial_sync = true }

abbrev pub state : State
state = record (new_state 10 repository) {
  issues =
      (key_1, tracked)
      ∷ (key_2, record tracked { key = key_2; file_path = codes "/r/lost.yaml" })
      ∷ [];
}

abbrev pub config : SyncConfig
config = record {
  concurrency = 2;
  rate_limit = 0;
  incremental = true;
  force = false;
  dry_run = false;
  include_links = true;
}

abbrev pub heap : Heap
heap = record { next = 1; cell = λ r. started_operation 20 issues config }

-- The file of the first issue is there, that of the second is not.
abbrev pub disk : Disk
disk = (issue_path, codes "ab") ∷ []

-- A format that writes the time of the last update, and reads it back into the given file.
abbrev pub platform_for : StateFile → Platform
platform_for file = record {
  hash = λ bytes. bytes;
  parse_time = λ layout text. elim text [ [] ↦ none | c ∷ rest ↦ some c ];
  marshal = λ format f. some (f.updated_at ∷ []);
  unmarshal =
      λ format bytes. elim bytes [ [] ↦ none | t ∷ rest ↦ some (record file { updated_at = t }) ];
}

abbrev pub issue : Issue
issue = record {
  key = key_1;
  summary = codes "s";
  description = [];
  status = record { name = codes "Open"; category = codes "todo" };
  assignee = record { name = []; email = [] };
  reporter = record { name = []; email = [] };
  created = codes "1";
  updated = codes "2";
  priority = [];
  issue_type = codes "Task";
  relationships = none;
}

-- The world is a clock; reading it changes nothing. The second issue cannot be fetched.
abbrev pub answer : Text → Outcome Issue
answer key = if text_eq key key_1 then ok issue else fail (codes "not found")

abbrev pub services : Services ℕ
services = record {
  get_issue = λ key w. (answer key, w);
  search_issues = λ jql w. (ok (issue ∷ []), w);
  write_issue = λ i r w. (ok issue_path, w);
  create_links = λ i r w. (ok tt, w);
  commit_issue = λ r path i w. (ok tt, w);
  cancelled = λ w. (false, w);
  now = λ w. (w, w);
}

abbrev pub runtime : Runtime ℕ
runtime = record {
  services = services;
  platform = platform_for (record {
    version = [];
    repository = repository;
    last_sync = none;
    history = [];
    issues = none;
    stats = state.stats;
    created_at = 10;
    updated_at = 10;
  });
  manager = manager;
  concurrency = 2;
  faults = λ w. (no_faults, w);
  disk = λ w. disk;
  set_disk = λ d w. w;
  batch = λ keys r e. (
    record (empty_batch 2 2) {
      processed_issues = 2;
      successful_sync = 1;
      failed_sync = 1;
      processed_files = issue_path ∷ [];
      errors = record { issue_key = key_2; step = codes "sync"; message = codes "not found" } ∷ [];
    },
    e,
  );
}

abbrev pub env : Env ℕ
env = record { world = 50; progress = record { capacity = 4; queued = [] } }

abbrev pub session : Session ℕ
session = record { env = env; heap = heap; state = state }
