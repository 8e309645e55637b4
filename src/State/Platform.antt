-- ===== src/State/Platform.antt =====
-- What the state manager takes from outside the repository: a hash, the parsing of time stamps,
-- the YAML and JSON libraries, and the files, with the faults that the operating system may report.
use jira_cdc_git.Prelude.{ℕ, Bool, Option}
use jira_cdc_git.Prelude.Text.{Text}
use jira_cdc_git.Prelude.Assoc.{Assoc}
use jira_cdc_git.State.Types.{StateFile}

-- `StateFileFormat`.
pub data StateFileFormat : Type 0 where
  yaml json : StateFileFormat
  other_format : Text → StateFileFormat

pub record Platform : Type 0 where
  -- sha256, in hexadecimal
  pub hash : Text → Text
  -- `time.Parse(layout, text)`
  pub parse_time : Text → Text → Option ℕ
  pub marshal : StateFileFormat → StateFile → Option Text
  pub unmarshal : StateFileFormat → Text → Option StateFile

-- The contents of the regular files.
abbrev pub Disk : Type 0
Disk = Assoc Text

-- Which system calls fail this time, for other reasons than a missing file.
pub record Faults : Type 0 where
  pub read : Text → Bool
  pub stat : Text → Bool
  pub write : Bool
  pub rename : Bool
  -- what a failed write or copy leaves in the file, if it got as far as creating it
  pub torn : Option Text
  -- `io.Copy`
  pub copy : Bool
  pub remove : Text → Bool

-- A call of `filepath.Walk`'s callback.
pub record WalkEntry : Type 0 where
  pub path : Text
  pub is_dir : Bool
  pub failed : Bool
