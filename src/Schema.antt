-- ===== src/Schema.antt =====
-- pkg/schema/yaml.go and errors.go: the writer of the issue files.
pub mod ProjectKey
use jira_cdc_git.Prelude.{
  Bool, true, false, ◌||◌, Option, none, some, List, [], ◌∷◌, ◌++◌, if◌then◌else◌,
}
use jira_cdc_git.Prelude.Text.{Text, codes, text_eq}
use jira_cdc_git.Prelude.FilePath.{split, join_with, join}
use jira_cdc_git.Sync.Services.{Outcome, ok, fail}
use jira_cdc_git.Jira.{Issue}

-- `err` is the message of the underlying error, if there is one.
pub record SchemaError : Type 0 where
  pub type : Text
  pub message : Text
  pub err : Option Text
  pub context : Text

unfoldable pub error_text : SchemaError → Text
error_text e =
    if text_eq e.context []
    then codes "schema error (" ++ (e.type ++ (codes "): " ++ e.message))
    else codes "schema error ("
      ++ (e.type ++ (codes ") for " ++ (e.context ++ (codes ": " ++ e.message))))

-- An error of this package, or one that `fmt.Errorf` wraps.
pub data Failure : Type 0 where
  plain : SchemaError → Failure
  wrapped : Text → SchemaError → Failure

pub data Result (A : Type 0) : Type 0 where
  done : A → Result A
  failed : Failure → Result A

-- The test of the type of an error looks at the error itself, not at what it wraps.
abbrev pub has_type : Text → Failure → Bool
has_type type (plain e) = text_eq e.type type
has_type type (wrapped message e) = false

unfoldable pub is_serialization_error : Failure → Bool
is_serialization_error e =
    has_type (codes "serialization_error") e || has_type (codes "deserialization_error") e

unfoldable pub is_file_error : Failure → Bool
is_file_error e = has_type (codes "file_error") e

unfoldable pub is_invalid_input_error : Failure → Bool
is_invalid_input_error e = has_type (codes "invalid_input") e

abbrev pub schema_error : Text → Text → Option Text → SchemaError
schema_error type message err = record { type = type; message = message; err = err; context = [] }

abbrev pub invalid_input : Text → SchemaError
invalid_input message = schema_error (codes "invalid_input") message none

-- The packages os and yaml. `W` is the state of the world.
pub record Files (W : Type 0) : Type 0 where
  pub mkdir_all : Text → W → Option Text × W
  pub write_file : Text → Text → W → Option Text × W
  pub marshal : Issue → Outcome Text
  pub unmarshal : Text → Outcome Issue

abbrev pub drop_last : List Text → List Text
drop_last [] = []
drop_last (w ∷ []) = []
drop_last (w ∷ v ∷ ws) = w ∷ drop_last (v ∷ ws)

abbrev pub project_of : List Text → Text
project_of [] = []
project_of (w ∷ []) = []
project_of (w ∷ v ∷ ws) = join_with (codes "-") (drop_last (w ∷ v ∷ ws))

unfoldable pub extract_project_key : Text → Text
extract_project_key key = project_of (split b'-' key)

unfoldable pub get_issue_file_path : Text → Text → Text → Text
get_issue_file_path base project key =
    join (base ∷ codes "projects" ∷ project ∷ codes "issues" ∷ (key ++ codes ".yaml") ∷ [])

unfoldable pub marshalled : Outcome Text → Result Text
marshalled (ok bytes) = done bytes
marshalled (fail e) = failed (
    plain (
      schema_error (codes "serialization_error") (codes "failed to marshal issue to YAML")
        (some e)))

unfoldable pub unmarshalled : Outcome Issue → Result Issue
unmarshalled (ok issue) = done issue
unmarshalled (fail e) = failed (
    plain (
      schema_error (codes "deserialization_error") (codes "failed to unmarshal YAML to issue")
        (some e)))

module _ {W : Type 0} (os : Files W) where
  unfoldable pub to_yaml : Option Issue → Result Text
  to_yaml none = failed (plain (invalid_input (codes "issue cannot be nil")))
  to_yaml (some issue) = marshalled (os.marshal issue)

  unfoldable pub from_yaml : Text → Result Issue
  from_yaml [] = failed (plain (invalid_input (codes "YAML data cannot be empty")))
  from_yaml (c ∷ t) = unmarshalled (os.unmarshal (c ∷ t))

  unfoldable pub made : Text → Option Text × W → Option SchemaError × W
  made path (none, w) = (none, w)
  made path (some e, w) = (
    some
        (schema_error (codes "file_error") (codes "failed to create directory: " ++ path) (some e)),
    w,
  )

  unfoldable pub create_directory_structure : Text → Text → W → Option SchemaError × W
  create_directory_structure [] project w =
      (some (invalid_input (codes "base path cannot be empty")), w)
  create_directory_structure (c ∷ base) [] w =
      (some (invalid_input (codes "project key cannot be empty")), w)
  create_directory_structure (c ∷ base) (d ∷ project) w =
      let path = join ((c ∷ base) ∷ codes "projects" ∷ (d ∷ project) ∷ codes "issues" ∷ []) in
      made path (os.mkdir_all path w)

  unfoldable pub written : Text → Option Text × W → Result Text × W
  written path (none, w) = (done path, w)
  written path (some e, w) = (
    failed (
        plain (
          schema_error (codes "file_error") (codes "failed to write YAML file: " ++ path)
            (some e))),
    w,
  )

  unfoldable pub write_marshalled : Text → Result Text → W → Result Text × W
  write_marshalled path (failed e) w = (failed e, w)
  write_marshalled path (done bytes) w = written path (os.write_file path bytes w)

  unfoldable pub write_in : Text → Text → Issue → Option SchemaError × W → Result Text × W
  write_in base project issue (some e, w) =
      (failed (wrapped (codes "failed to create directory structure: " ++ error_text e) e), w)
  write_in base project issue (none, w) =
      write_marshalled (get_issue_file_path base project issue.key) (marshalled (os.marshal issue))
        w

  -- The writing of an issue whose key has this project.
  unfoldable pub write_of_project : Text → Text → Issue → W → Result Text × W
  write_of_project base [] issue w = (
    failed (
        plain
          (invalid_input (codes "could not extract project key from issue key: " ++ issue.key))),
    w,
  )
  write_of_project base (c ∷ project) issue w =
      write_in base (c ∷ project) issue (create_directory_structure base (c ∷ project) w)

  unfoldable pub write_issue_to_yaml : Option Issue → Text → W → Result Text × W
  write_issue_to_yaml none base w =
      (failed (plain (invalid_input (codes "issue cannot be nil"))), w)
  write_issue_to_yaml (some issue) base w =
      if text_eq issue.key []
      then (failed (plain (invalid_input (codes "issue key cannot be empty"))), w)
      else write_of_project base (extract_project_key issue.key) issue w
