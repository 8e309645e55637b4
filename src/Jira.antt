-- ===== src/Jira.antt =====
-- pkg/client/client.go: an issue as the JIRA client returns it, and the client's interface.
use jira_cdc_git.Prelude.{Option, List}
use jira_cdc_git.Prelude.Text.{Text}

pub record Status : Type 0 where
  pub name : Text
  pub category : Text

pub record User : Type 0 where
  pub name : Text
  pub email : Text

pub record IssueLink : Type 0 where
  pub type : Text
  pub direction : Text
  pub issue_key : Text
  pub summary : Text

pub record Relationships : Type 0 where
  pub epic_link : Text
  pub parent_issue : Text
  pub subtasks : List Text
  pub issue_links : List IssueLink

pub record Issue : Type 0 where
  pub key : Text
  pub summary : Text
  pub description : Text
  pub status : Status
  pub assignee : User
  pub reporter : User
  pub created : Text
  pub updated : Text
  pub priority : Text
  pub issue_type : Text
  pub relationships : Option Relationships
