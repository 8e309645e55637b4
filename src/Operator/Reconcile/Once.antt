-- ===== src/Operator/Reconcile/Once.antt =====
-- internal/operator/controllers/jirasync_controller.go: a resource with a job is not triggered again.
use jira_cdc_git.Prelude.{
  ◌≡◌, refl, ap, fun_ext, if◌then◌else◌, Bool, true, false, Option, none, some, List, [], ◌∷◌, ◌==◌,
}
use jira_cdc_git.Prelude.Text.{Text, codes, text_eq}
use jira_cdc_git.Sync.Services.{Outcome}
use jira_cdc_git.Operator.Types.{JobReference, JiraSync}
use jira_cdc_git.Operator.Api.{ApiRequest, SyncJobResponse}
use jira_cdc_git.Operator.Cluster.{
  Cluster, Api, Found, found, missing, broken, Scene, Act, ◌>>=◌, pure, call, get, modify,
}
use jira_cdc_git.Operator.Phase.{Reconciled}
use jira_cdc_git.Operator.Handlers.{
  has_job, start_or_follow, handle_pending, handle_api_job_status, monitor, handle_running,
}
use jira_cdc_git.Operator.Reconcile.{
  contains_finalizer, handle_phase, add_finalizer, after_observed, observe_generation, handle,
  handle_found, reconcile,
}
use jira_cdc_git.Operator.Held.{
  HasRef, FindsRef, HoldsRef, Keeps, Keeps-if, Keeps-then, Keeps-modify, Keeps-pure, Keeps-get,
  save-Keeps, save_status-Keeps,
}
use jira_cdc_git.Operator.Held.Initializing.{initialize_sync-Keeps}
use jira_cdc_git.Operator.Held.Handling.{
  handle_failed-Keeps, handle_completed-Keeps, handle_deletion-Keeps, handle_running-Keeps,
  handle_pending-Keeps,
}

module _ {F W : Type 0} {ref : Option JobReference} {Kept : W → Type 0} {k : Cluster F W}
    {api : Api W} (holds : HoldsRef k api ref Kept) (named : has_job ref ≡ true) where
  handle_phase-Keeps : (phase : Text) → Keeps ref Kept (handle_phase k api phase)
  unfolding handle_phase
  handle_phase-Keeps phase = Keeps-if _ _ _ (handle_pending-Keeps holds named) (
      Keeps-if _ _ _ (handle_running-Keeps holds) (
        Keeps-if _ _ _ (handle_completed-Keeps holds)
          (Keeps-if _ _ _ (handle_failed-Keeps holds) (initialize_sync-Keeps holds))))

  after_observed-Keeps : (e : Option Text) → Keeps ref Kept (after_observed k api e)
  unfolding after_observed
  after_observed-Keeps (some e) = Keeps-pure _
  after_observed-Keeps none = Keeps-then Keeps-get λ o. handle_phase-Keeps _

  observe_generation-Keeps : Keeps ref Kept (observe_generation k api)
  unfolding observe_generation
  observe_generation-Keeps =
      Keeps-then (Keeps-modify _ λ o. refl)
        λ _. Keeps-then (save_status-Keeps holds) λ e. after_observed-Keeps e

  add_finalizer-Keeps : Keeps ref Kept (add_finalizer k api)
  unfolding add_finalizer
  add_finalizer-Keeps =
      Keeps-then (Keeps-modify _ λ o. refl) λ _. Keeps-then (save-Keeps holds) λ e. Keeps-pure _

  handle-Keeps : (o : JiraSync F) → Keeps ref Kept (handle k api o)
  unfolding handle
  handle-Keeps o = Keeps-if o.deleted _ _ (handle_deletion-Keeps holds) (
      Keeps-if (contains_finalizer o.finalizers) _ _
        (Keeps-if (o.status.observed_generation == o.generation) _ _ (after_observed-Keeps none)
          observe_generation-Keeps)
        add_finalizer-Keeps)

  handle_found-Kept :
      (o : Found (JiraSync F)) (e : Scene F W)
      → FindsRef ref o
      → Kept e.world
      → Kept (handle_found k api o e).1.world
  unfolding handle_found ◌>>=◌ pure modify
  handle_found-Kept missing e h g = g
  handle_found-Kept (broken m) e h g = g
  handle_found-Kept (found o) e h g = ((handle-Keeps o).at (record e { object = o }) g h).0

  reconcile-Kept : (e : Scene F W) → Kept e.world → Kept (reconcile k api e).1.world
  unfolding reconcile ◌>>=◌ call
  reconcile-Kept e g =
      let r = holds.get_sync e.world g in handle_found-Kept (k.get_sync e.world).0 _ r.0 r.1

-- A client that triggers otherwise.
abbrev pub with_trigger :
    {W : Type 0} → (Text → ApiRequest → W → Outcome SyncJobResponse × W) → Api W → Api W
with_trigger f api = record api { trigger = f }

if_at :
    {F W A : Type 0} (b : Bool) (m m' n n' : Act F W A) (e : Scene F W)
    → m e ≡ m' e
    → n e ≡ n' e
    → (if b then m else n) e ≡ (if b then m' else n') e
if_at true m m' n n' e p q = p
if_at false m m' n n' e p q = q

module _ {F W : Type 0} {ref : Option JobReference} {Kept : W → Type 0} {k : Cluster F W}
    {api : Api W} (holds : HoldsRef k api ref Kept) (named : has_job ref ≡ true)
    (f : Text → ApiRequest → W → Outcome SyncJobResponse × W) where
  monitor-with_trigger :
      (j : Option JobReference) → monitor k api j ≡ monitor k (with_trigger f api) j
  unfolding monitor handle_api_job_status
  monitor-with_trigger none = refl
  monitor-with_trigger (some j) = refl

  handle_running-with_trigger : handle_running k api ≡ handle_running k (with_trigger f api)
  unfolding handle_running
  handle_running-with_trigger = rw (fun_ext monitor-with_trigger) refl

  handle_pending-with_trigger :
      (e : Scene F W)
      → HasRef ref e.object
      → handle_pending k api e ≡ handle_pending k (with_trigger f api) e
  unfolding handle_pending start_or_follow ◌>>=◌ get
  handle_pending-with_trigger e h = rw (h, named) refl

  handle_phase-with_trigger :
      (phase : Text) (e : Scene F W)
      → HasRef ref e.object
      → handle_phase k api phase e ≡ handle_phase k (with_trigger f api) phase e
  unfolding handle_phase
  handle_phase-with_trigger phase e h =
      if_at (text_eq phase (codes "Pending")) _ _ _ _ e (handle_pending-with_trigger e h) (
        if_at (text_eq phase (codes "Running")) _ _ _ _ e
          (ap (λ m. m e) handle_running-with_trigger) refl)

  after_observed-with_trigger :
      (r : Option Text) (e : Scene F W)
      → HasRef ref e.object
      → after_observed k api r e ≡ after_observed k (with_trigger f api) r e
  unfolding after_observed ◌>>=◌ get
  after_observed-with_trigger (some m) e h = refl
  after_observed-with_trigger none e h = handle_phase-with_trigger e.object.status.phase e h

  observe_generation-with_trigger :
      (e : Scene F W)
      → Kept e.world
      → HasRef ref e.object
      → observe_generation k api e ≡ observe_generation k (with_trigger f api) e
  unfolding observe_generation ◌>>=◌ modify
  observe_generation-with_trigger e g h =
      after_observed-with_trigger _ _ ((save_status-Keeps holds).at _ g h).1

  handle-with_trigger :
      (o : JiraSync F) (e : Scene F W)
      → Kept e.world
      → HasRef ref e.object
      → handle k api o e ≡ handle k (with_trigger f api) o e
  unfolding handle add_finalizer
  handle-with_trigger o e g h = if_at o.deleted _ _ _ _ e refl (
      if_at (contains_finalizer o.finalizers) _ _ _ _ e
        (if_at (o.status.observed_generation == o.generation) _ _ _ _ e
          (after_observed-with_trigger none e h) (observe_generation-with_trigger e g h))
        refl)

  handle_found-with_trigger :
      (o : Found (JiraSync F)) (e : Scene F W)
      → FindsRef ref o
      → Kept e.world
      → handle_found k api o e ≡ handle_found k (with_trigger f api) o e
  unfolding handle_found ◌>>=◌ modify
  handle_found-with_trigger missing e h g = refl
  handle_found-with_trigger (broken m) e h g = refl
  handle_found-with_trigger (found o) e h g = handle-with_trigger o (record e { object = o }) g h

  reconcile-with_trigger :
      (e : Scene F W) → Kept e.world → reconcile k api e ≡ reconcile k (with_trigger f api) e
  unfolding reconcile ◌>>=◌ call
  reconcile-with_trigger e g =
      let r = holds.get_sync e.world g in handle_found-with_trigger (k.get_sync e.world).0 _ r.0 r.1

-- The resource is reconciled again and again; in between, the world changes.
module _ {F W : Type 0} (k : Cluster F W) (api : Api W) where
  unfoldable pub reconcile_each : List (W → W) → Scene F W → List Reconciled × Scene F W
  reconcile_each [] e = ([], e)
  reconcile_each (change ∷ changes) e =
      let r = reconcile k api (record e { world = change e.world }) in
      let rest = reconcile_each changes r.1 in (r.0 ∷ rest.0, rest.1)

abbrev pub LeaveRef : {W : Type 0} → (W → Type 0) → List (W → W) → Type 0
LeaveRef Kept [] = Unit
LeaveRef {W} Kept (change ∷ changes) = ((w : W) → Kept w → Kept (change w)) × LeaveRef Kept changes

-- A resource that has a job with a name is not triggered again: however often it is reconciled, in
-- whatever phase, with changes in between that leave its job reference, each result and the worlds are
-- those for any other way of triggering, and its job reference stays. It is supposed that the cluster
-- stores a resource with the job reference that an update has, and leaves it alone otherwise.
pub reconcile_each-with_trigger :
    {F W : Type 0} {ref : Option JobReference} {Kept : W → Type 0} {k : Cluster F W} {api : Api W}
    (f : Text → ApiRequest → W → Outcome SyncJobResponse × W) (changes : List (W → W))
    (e : Scene F W)
    → HoldsRef k api ref Kept
    → has_job ref ≡ true
    → LeaveRef Kept changes
    → Kept e.world
    → (reconcile_each k api changes e ≡ reconcile_each k (with_trigger f api) changes e)
      × Kept (reconcile_each k api changes e).1.world
unfolding reconcile_each
reconcile_each-with_trigger f [] e holds named leave g = (refl, g)
reconcile_each-with_trigger {k = k} {api = api} f (change ∷ changes) e holds named leave g =
    let e' = record e { world = change e.world } in
    let g' = leave.0 e.world g in
    let rest =
      reconcile_each-with_trigger f changes (reconcile k api e').1 holds named leave.1
        (reconcile-Kept holds named e' g') in
    (rw (← reconcile-with_trigger holds named f e' g') (rw (rest.0) refl), rest.1)
