-- ===== src/Sync/Engine/Query.antt =====
-- internal/sync/incremental.go: `SyncJQLIncremental` after the search.
use jira_cdc_git.Prelude.{ℕ, ◌≡◌, refl, sym, ap, ◌∙◌, Option, none, List, map}
use jira_cdc_git.Prelude.Text.{Text}
use jira_cdc_git.Jira.{Issue}
use jira_cdc_git.State.Types.{State}
use jira_cdc_git.State.Heap.{Heap}
use jira_cdc_git.State.Persist.{Result, ok, err}
use jira_cdc_git.Sync.Services.{Outcome}
use jira_cdc_git.Sync.Runtime.{Runtime, Session}
use jira_cdc_git.Sync.Incremental.{IncrementalSyncOptions}
use jira_cdc_git.Sync.Engine.{
  Engine, set_initialized, initialize_loaded, initialize_repository, engine_of, session_of,
  sync_initialized, sync_issues_incremental, search_session, sync_searched, sync_query,
  sync_jql_incremental,
}

module _ {W : Type 0} (rt : Runtime W) where
  initialized_same :
      (made : Result State) (x : Engine W) (st : Option State) (s : State)
      → (set_initialized rt made x).0 ≡ ok s
      → set_initialized rt made (record x { state = st }) ≡ set_initialized rt made x
  initialized_same (ok s') x st s e = refl
  initialized_same (err m) x st s e = absurd cc

  loaded_same :
      (repo : Text) (r : Result (Heap × State)) (x : Engine W) (st : Option State) (s : State)
      → (initialize_loaded rt repo r x).0 ≡ ok s
      → initialize_loaded rt repo r (record x { state = st }) ≡ initialize_loaded rt repo r x
  unfolding initialize_loaded
  loaded_same repo (ok (h, s')) x st s e = refl
  loaded_same repo (err m) x st s e = initialized_same _ _ st s e

  -- Initializing a repository does not read the state that was set.
  initialize_same :
      (repo : Text) (x : Engine W) (st : Option State) (s : State)
      → (initialize_repository rt repo x).0 ≡ ok s
      → initialize_repository rt repo (record x { state = st }) ≡ initialize_repository rt repo x
  unfolding initialize_repository
  initialize_same repo x st s e = loaded_same repo _ _ st s e

  -- The search of the sync by a query, in the repository that was initialized.
  abbrev pub searched :
      Text
      → Text
      → IncrementalSyncOptions
      → Engine W
      → State
      → (ℕ × Outcome (List Issue)) × Session W
  searched query repo o x s =
      search_session rt query o (session_of rt (initialize_repository rt repo x).1 s)

  found_or : List Issue → Outcome (List Issue) → List Issue
  found_or l (Outcome.ok issues) = issues
  found_or l (Outcome.fail m) = l

  state_or : State → Result State → State
  state_or s (ok t) = t
  state_or s (err e) = s

  query_same :
      (query repo : Text) (o : IncrementalSyncOptions) (r : Result State × Engine W) (s : State)
      → r.0 ≡ ok s
      → sync_query rt query repo o r
        ≡ sync_searched rt repo o (search_session rt query o (session_of rt r.1 s))
  unfolding sync_query state_or
  query_same query repo o (ok t, y) s e =
      ap (λ (s : State). sync_searched rt repo o (search_session rt query o (session_of rt y s)))
        (ap (state_or s) e)
  query_same query repo o (err m, y) s e = absurd cc

  searched_same :
      (repo : Text) (o : IncrementalSyncOptions) (r : (ℕ × Outcome (List Issue)) × Session W)
      (issues : List Issue) (s : State)
      → r.0.1 ≡ Outcome.ok issues
      → (initialize_repository rt repo (engine_of rt r.1)).0 ≡ ok s
      → sync_searched rt repo o r
        ≡ sync_issues_incremental rt
            (map (λ (i : Issue). i.key) issues)
            repo
            o
            (record (engine_of rt r.1) { state = none })
  unfolding sync_searched sync_issues_incremental found_or
  searched_same repo o ((r, Outcome.ok found), y) issues s e i =
      ap
        (λ (l : List Issue).
          sync_issues_incremental rt (map (λ (i : Issue). i.key) l) repo o (engine_of rt y))
        (ap (found_or issues) e)
      ∙ ap (sync_initialized rt (map (λ (i : Issue). i.key) issues) repo o)
          (sym (initialize_same repo (engine_of rt y) none s i))
  searched_same repo o ((r, Outcome.fail m), y) issues s e i = absurd cc

  -- If the repository can be initialized before and after the search, a sync by a query is the sync of
  -- the keys found by an engine with no state set: the state in which the operation of the query was
  -- started has no effect, so that operation and its query are lost.
  pub sync_jql_incremental-sync_issues_incremental :
      (query repo : Text) (o : IncrementalSyncOptions) (x : Engine W) (s s2 : State)
      (issues : List Issue)
      → (initialize_repository rt repo x).0 ≡ ok s
      → (searched query repo o x s).0.1 ≡ Outcome.ok issues
      → (initialize_repository rt repo (engine_of rt (searched query repo o x s).1)).0 ≡ ok s2
      → sync_jql_incremental rt query repo o x
        ≡ sync_issues_incremental rt
            (map (λ (i : Issue). i.key) issues)
            repo
            o
            (record (engine_of rt (searched query repo o x s).1) { state = none })
  unfolding sync_jql_incremental
  sync_jql_incremental-sync_issues_incremental query repo o x s s2 issues e found again =
      query_same query repo o (initialize_repository rt repo x) s e
      ∙ searched_same repo o (searched query repo o x s) issues s2 found again
