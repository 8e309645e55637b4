-- ===== src/State/Issues.antt =====
-- pkg/state/manager.go: the state of single issues, and which of them an incremental sync takes.
pub mod Tracking
pub mod Candidates
use jira_cdc_git.Prelude.{
  ℕ, Bool, true, not, ◌&&◌, ◌||◌, Option, none, some, List, [], ◌∷◌, ◌++◌, ltb, ◌==◌, if◌then◌else◌,
  length, any, add64, slt, sub_time, is_zero_time,
}
use jira_cdc_git.Prelude.Text.{Text, codes, text_eq}
use jira_cdc_git.Prelude.Assoc.{Assoc, lookup, insert, remove}
use jira_cdc_git.Prelude.Sorting.{sort_texts}
use jira_cdc_git.Jira.{Issue}
use jira_cdc_git.State.Types.{IssueState, IncrementalSyncOptions, State}
use jira_cdc_git.State.Heap.{Heap}
use jira_cdc_git.State.Platform.{Platform, Disk, Faults}
use jira_cdc_git.State.Persist.{StateError, checksum_failed, file_info_failed}
use jira_cdc_git.State.Operations.{get_last_sync_time}

-- "PROJ-123" is of the project "PROJ"; a key with no dash is its own project.
unfoldable pub extract_project_key : Text → Text
extract_project_key [] = []
extract_project_key (c ∷ s) = let rest = extract_project_key s in if c == b'-' then [] else c ∷ rest

first_parse : Platform → List Text → Text → ℕ
first_parse p [] text = 0
first_parse p (layout ∷ layouts) text = elim (p.parse_time layout text) [
  | some t ↦ t
  | none ↦ first_parse p layouts text
]

abbrev jira_layouts : List Text
jira_layouts =
    codes "2006-01-02T15:04:05.999-0700"
    ∷ codes "2006-01-02T15:04:05.999Z"
    ∷ codes "2006-01-02T15:04:05-0700"
    ∷ codes "2006-01-02T15:04:05Z"
    ∷ codes "2006-01-02T15:04:05Z07:00"
    ∷ codes "2006-01-02T15:04:05.999999999Z07:00"
    ∷ []

-- The zero time stands for a text that no layout parses.
unfoldable pub parse_jira_time : Platform → Text → ℕ
unfolding first_parse
parse_jira_time p [] = 0
parse_jira_time p (c ∷ text) = first_parse p jira_layouts (c ∷ text)

-- The calls that read the file: its hash, and its size.
unfoldable pub calculate_file_checksum : Platform → Faults → Disk → Text → Option Text
calculate_file_checksum p f d path = elim (lookup path d) [
  | none ↦ none
  | some bytes ↦ if f.read path then none else some (p.hash bytes)
]

unfoldable pub file_size : Faults → Disk → Text → Option ℕ
file_size f d path = elim (lookup path d) [
  | none ↦ none
  | some bytes ↦ if f.stat path then none else some (length bytes)
]

unfoldable pub update_active_projects : List Text → Text → List Text
update_active_projects projects project =
    if any (λ p. text_eq p project) projects
    then projects
    else sort_texts (projects ++ project ∷ [])

abbrev next_sync_count : Option IssueState → ℕ
next_sync_count none = 1
next_sync_count (some i) = add64 i.sync_count 1

abbrev pub synced_issue : Platform → ℕ → Issue → Text → Text → ℕ → Option IssueState → IssueState
synced_issue p now issue path checksum size existing = record {
  key = issue.key;
  project_key = extract_project_key issue.key;
  last_synced = now;
  last_modified = now;
  last_updated = parse_jira_time p issue.updated;
  version = 1;
  file_path = path;
  file_size = size;
  checksum = checksum;
  sync_status = codes "success";
  error_message = [];
  sync_count = next_sync_count existing;
}

-- The state with the issue's entry, and its project, written.
unfoldable pub put_issue : State → Text → IssueState → State
unfolding update_active_projects
put_issue s key i = record s {
  issues = insert key i s.issues;
  stats = record s.stats {
    active_projects = update_active_projects s.stats.active_projects (extract_project_key key);
  };
}

-- What follows the two reads of the file; `os.Stat` is called only after the hash.
unfoldable pub update_measured :
    Platform → ℕ → State → Issue → Text → Option Text → Option ℕ → State × Option StateError
update_measured p now s issue path none size = (s, some checksum_failed)
update_measured p now s issue path (some checksum) none = (s, some file_info_failed)
update_measured p now s issue path (some checksum) (some size) = (
  put_issue s issue.key (synced_issue p now issue path checksum size (lookup issue.key s.issues)),
  none,
)

unfoldable pub update_issue_state :
    Platform → Faults → ℕ → Disk → State → Issue → Text → State × Option StateError
update_issue_state p f now d s issue path =
    update_measured p now s issue path (calculate_file_checksum p f d path) (file_size f d path)

unfoldable pub get_issue_state : State → Text → Option IssueState
get_issue_state s key = lookup key s.issues

unfoldable pub remove_issue_state : State → Text → State
remove_issue_state s key = record s { issues = remove key s.issues }

-- The test of one issue in `GetChangedIssues`.
unfoldable pub is_changed : ℕ → ℕ → IncrementalSyncOptions → IssueState → Bool
is_changed now since o i =
    let modified = o.include_modified && ltb since i.last_updated in
    let never_synced = o.include_new && is_zero_time i.last_synced in
    let in_project =
      if ltb 0 (length o.projects)
      then any (λ project. text_eq i.project_key project) o.projects
      else true in
    let too_old = slt 0 o.max_age && slt o.max_age (sub_time now i.last_updated) in
    (modified || never_synced) && (in_project && not too_old)

unfoldable pub changed_keys : (IssueState → Bool) → Assoc IssueState → List Text
changed_keys test [] = []
changed_keys test ((k, i) ∷ m) = let rest = changed_keys test m in if test i then k ∷ rest else rest

-- Without a time of its own the test is against the last completed sync.
unfoldable pub since_time : Heap → State → IncrementalSyncOptions → ℕ
since_time h s o = if is_zero_time o.since then get_last_sync_time h s else o.since

-- `now i` is the time that is read in the turn of the loop for the issue `i`.
unfoldable pub get_changed_issues :
    (IssueState → ℕ) → Heap → State → IncrementalSyncOptions → List Text
unfolding changed_keys is_changed since_time
get_changed_issues now h s o =
    if o.force
    then changed_keys (λ i. true) s.issues
    else changed_keys (λ i. is_changed (now i) (since_time h s o) o i) s.issues

abbrev updated_since : ℕ → Option IssueState → Bool
updated_since updated none = true
updated_since updated (some i) = ltb i.last_synced updated

unfoldable pub should_sync_issue : Platform → State → Issue → Bool
should_sync_issue p s issue =
    updated_since (parse_jira_time p issue.updated) (lookup issue.key s.issues)
