-- ===== src/State/Persist.antt =====
-- pkg/state/manager.go: loading, saving, backing up and restoring the state file. A call returns the
-- disk beside its result, since what was written before a fault stays written.
pub mod Saving
pub mod RoundTrip
use jira_cdc_git.Prelude.{
  ℕ, ◌-◌, Option, none, some, [], ◌∷◌, ◌++◌, ltb, if◌then◌else◌, length, drop,
}
use jira_cdc_git.Prelude.Text.{Text, codes}
use jira_cdc_git.Prelude.Assoc.{Assoc, lookup, insert, remove}
use jira_cdc_git.Prelude.FilePath.{join}
use jira_cdc_git.State.Types.{SyncOperation, IssueState, State, StateFile}
use jira_cdc_git.State.Heap.{Heap, alloc}
use jira_cdc_git.State.Platform.{StateFileFormat, yaml, json, other_format, Platform, Disk, Faults}

pub data StateError : Type 0 where
  no_state_file read_failed parse_failed nil_state marshal_failed write_failed rename_failed :
      StateError
  backup_source_missing no_backup open_failed create_failed copy_failed : StateError
  checksum_failed file_info_failed : StateError
  initial_save_failed : StateError → StateError

-- `fmt.Errorf` wraps are constructors; `ok` carries what the call returns beside a nil error.
pub data Result {ℓ} (A : Type ℓ) : Type ℓ where
  ok : A → Result A
  err : StateError → Result A

abbrev pub state_file_version : Text
state_file_version = codes "v0.3.0"

abbrev pub max_history_entries : ℕ
max_history_entries = 50

pub record FileStateManager : Type 0 where
  pub format : StateFileFormat

unfoldable pub new_file_state_manager : StateFileFormat → FileStateManager
new_file_state_manager yaml = record { format = yaml }
new_file_state_manager json = record { format = json }
new_file_state_manager (other_format f) = record { format = yaml }

abbrev state_file_name : StateFileFormat → Text
state_file_name json = codes ".jira-sync-state.json"
state_file_name _ = codes ".jira-sync-state.yaml"

unfoldable pub get_state_file_path : FileStateManager → Text → Text
get_state_file_path m repo = join (repo ∷ state_file_name m.format ∷ [])

abbrev backup_file_name : StateFileFormat → Text
backup_file_name json = codes ".jira-sync-state.backup.json"
backup_file_name _ = codes ".jira-sync-state.backup.yaml"

unfoldable pub get_backup_file_path : FileStateManager → Text → Text
get_backup_file_path m repo = join (repo ∷ backup_file_name m.format ∷ [])

-- The default of an empty version, and of a nil issue map.
abbrev version_or_default : Text → Text
version_or_default [] = state_file_version
version_or_default (c ∷ v) = c ∷ v

abbrev map_or_empty : Option (Assoc IssueState) → Assoc IssueState
map_or_empty none = []
map_or_empty (some m) = m

-- Decoding allocates the operation that `LastSync` points to.
abbrev hydrate_last : Heap → Option SyncOperation → Heap × Option ℕ
hydrate_last h none = (h, none)
hydrate_last h (some op) = (alloc h op, some h.next)

unfoldable pub hydrate : Heap → StateFile → Heap × State
hydrate h f =
    let (h', last) = hydrate_last h f.last_sync in
    (
      h',
      record {
        version = version_or_default f.version;
        repository = f.repository;
        last_sync = last;
        history = f.history;
        issues = map_or_empty f.issues;
        stats = f.stats;
        created_at = f.created_at;
        updated_at = f.updated_at;
      },
    )

-- What the encoders see: the operation behind the pointer.
abbrev dehydrate_last : Heap → Option ℕ → Option SyncOperation
dehydrate_last h none = none
dehydrate_last h (some r) = some (h.cell r)

unfoldable pub dehydrate : Heap → State → StateFile
dehydrate h s = record {
  version = s.version;
  repository = s.repository;
  last_sync = dehydrate_last h s.last_sync;
  history = s.history;
  issues = some s.issues;
  stats = s.stats;
  created_at = s.created_at;
  updated_at = s.updated_at;
}

-- `os.ReadFile`, after the test for a missing file.
unfoldable pub load_state :
    Platform → FileStateManager → Faults → Disk → Heap → Text → Result (Heap × State)
unfolding hydrate
load_state p m f d h repo =
    let path = get_state_file_path m repo in
    elim (lookup path d) [
      | none ↦ err no_state_file
      | some bytes ↦ if f.read path then err read_failed else (elim (p.unmarshal m.format bytes) [
        | none ↦ err parse_failed
        | some file ↦ ok (hydrate h file)
      ])
    ]

-- A failed write leaves nothing, or part of the data.
abbrev pub torn_write : Option Text → Text → Disk → Disk
torn_write none path d = d
torn_write (some part) path d = insert path part d

-- The update of the metadata, and the limit on the history.
unfoldable pub stamp_state : ℕ → State → State
stamp_state now s = record s {
  version = state_file_version;
  updated_at = now;
  history =
      if ltb max_history_entries (length s.history)
      then drop (length s.history - max_history_entries) s.history
      else s.history;
}

unfoldable pub temp_file_path : Text → Text
temp_file_path path = path ++ codes ".tmp"

-- The temporary file is written first and then renamed over the state file.
unfoldable pub write_state_file : Faults → Disk → Text → Text → Disk × Option StateError
write_state_file f d path bytes =
    let temp = temp_file_path path in
    if f.write
    then (torn_write f.torn temp d, some write_failed)
    else if f.rename
    then (
      if f.remove temp then insert temp bytes d else remove temp (insert temp bytes d),
      some rename_failed,
    )
    else (insert path bytes (remove temp (insert temp bytes d)), none)

-- The encoding may have failed.
unfoldable pub write_encoded : Faults → Disk → Text → Option Text → Disk × Option StateError
write_encoded f d path none = (d, some marshal_failed)
write_encoded f d path (some bytes) = write_state_file f d path bytes

-- The state is stamped in place before anything can fail.
unfoldable pub save_present :
    Platform
    → FileStateManager
    → Faults
    → ℕ
    → Disk
    → Heap
    → Text
    → State
    → Disk × State × Option StateError
save_present p m f now d h repo s =
    let s' = stamp_state now s in
    let (d', e) =
      write_encoded f d (get_state_file_path m repo) (p.marshal m.format (dehydrate h s')) in
    (d', s', e)

-- A nil pointer is refused first.
unfoldable pub save_state :
    Platform
    → FileStateManager
    → Faults
    → ℕ
    → Disk
    → Heap
    → Text
    → Option State
    → Disk × Option State × Option StateError
save_state p m f now d h repo none = (d, none, some nil_state)
save_state p m f now d h repo (some s) =
    let (d', s', e) = save_present p m f now d h repo s in (d', some s', e)
