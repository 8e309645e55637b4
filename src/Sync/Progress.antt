-- ===== src/Sync/Progress.antt =====
-- internal/sync/batch.go: the progress channel. A send does not block: a full channel drops it.
use jira_cdc_git.Prelude.{
  ℕ, ◌≤◌, ◌≡◌, List, [], ◌∷◌, ◌++◌, arith, ltb, if◌then◌else◌, length, length-append,
}
use jira_cdc_git.Prelude.Text.{Text}

-- The percentage, a float, is left out; it is a function of the two counts.
pub record ProgressUpdate : Type 0 where
  pub current_issue : Text
  pub processed_count : ℕ
  pub total_count : ℕ
  pub step : Text
  pub timestamp : ℕ
  pub worker_id : ℕ

pub record Channel : Type 0 where
  pub capacity : ℕ
  pub queued : List ProgressUpdate

unfoldable pub try_send : ProgressUpdate → Channel → Channel
try_send u c =
    if ltb (length c.queued) c.capacity then record c { queued = c.queued ++ u ∷ [] } else c

-- A send to a channel within its capacity leaves it within its capacity, which does not change.
pub try_send-within :
    (u : ProgressUpdate) (c : Channel)
    → length c.queued ≤ c.capacity
    → (length (try_send u c).queued ≤ (try_send u c).capacity)
      × ((try_send u c).capacity ≡ c.capacity)
unfolding try_send
try_send-within u c h = ground (arith, length-append c.queued (u ∷ []))
