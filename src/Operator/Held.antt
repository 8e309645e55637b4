-- ===== src/Operator/Held.antt =====
-- internal/operator/controllers: the operations that leave a resource's job reference as it is.
pub mod Updating
pub mod Handling
pub mod Initializing
use jira_cdc_git.Prelude.{◌≡◌, ◌∙◌, Bool, true, false, Option, if◌then◌else◌}
use jira_cdc_git.Prelude.Text.{Text}
use jira_cdc_git.Sync.Services.{Outcome, ok, fail}
use jira_cdc_git.Operator.Types.{JobReference, JiraSync}
use jira_cdc_git.Operator.Cluster.{
  Cluster, Api, Found, found, Scene, Act, ◌>>=◌, pure, call, get, modify, updated, save,
  save_status,
}

module _ {F : Type 0} (ref : Option JobReference) where
  abbrev pub HasRef : JiraSync F → Type 0
  HasRef o = o.status.job_ref ≡ ref

  -- A resource that an update returns.
  abbrev pub ReturnsRef : Outcome (JiraSync F) → Type 0
  ReturnsRef (ok o) = HasRef o
  ReturnsRef (fail e) = Unit

  abbrev pub FindsRef : Found (JiraSync F) → Type 0
  FindsRef (found o) = HasRef o
  FindsRef _ = Unit

-- In the worlds of `Kept` the resource is stored with the reference `ref`: a read finds it with it, an
-- update of it leaves it there, and so does all else.
pub record HoldsRef {F W : Type 0} (k : Cluster F W) (api : Api W) (ref : Option JobReference)
    (Kept : W → Type 0) : Type 0 where
  pub now : (w : W) → Kept w → Kept (k.now w).1
  pub get_sync : (w : W) → Kept w → FindsRef ref (k.get_sync w).0 × Kept (k.get_sync w).1
  pub update :
      (o : JiraSync F) (w : W)
      → HasRef ref o
      → Kept w
      → ReturnsRef ref (k.update o w).0 × Kept (k.update o w).1
  pub update_status :
      (o : JiraSync F) (w : W)
      → HasRef ref o
      → Kept w
      → ReturnsRef ref (k.update_status o w).0 × Kept (k.update_status o w).1
  pub list_api_servers : (w : W) → Kept w → Kept (k.list_api_servers w).1
  pub get_job : (name namespace : Text) (w : W) → Kept w → Kept (k.get_job name namespace w).1
  pub delete_job : (name namespace : Text) (w : W) → Kept w → Kept (k.delete_job name namespace w).1
  pub event : (type reason message : Text) (w : W) → Kept w → Kept (k.event type reason message w)
  pub get_job_status : (host id : Text) (w : W) → Kept w → Kept (api.get_job_status host id w).1

module _ {F W : Type 0} (ref : Option JobReference) (Kept : W → Type 0) where
  -- `m` leaves the reference, in memory and in the store.
  pub record Keeps {A : Type 0} (m : Act F W A) : Type 0 where
    pub at :
        (e : Scene F W)
        → Kept e.world
        → HasRef ref e.object
        → Kept (m e).1.world × HasRef ref (m e).1.object

module _ {F W : Type 0} {ref : Option JobReference} (Kept : W → Type 0) where
  updated_Held :
      (e : Scene F W) (r : Outcome (JiraSync F) × W)
      → HasRef ref e.object
      → ReturnsRef ref r.0
      → Kept r.1
      → Kept (updated e r).1.world × HasRef ref (updated e r).1.object
  updated_Held e (ok o, w) g h k = (k, h)
  updated_Held e (fail m, w) g h k = (k, g)

module _ {F W : Type 0} {ref : Option JobReference} {Kept : W → Type 0} where
  pub Keeps-pure : {A : Type 0} (a : A) → Keeps ref Kept (pure {F = F} {W = W} a)
  unfolding pure
  Keeps-pure a = record { at = λ e h g. (h, g) }

  pub Keeps-bind :
      {A B : Type 0} (m : Act F W A) (f : A → Act F W B)
      → Keeps ref Kept m
      → ((a : A) → Keeps ref Kept (f a))
      → Keeps ref Kept (m >>= f)
  unfolding ◌>>=◌
  Keeps-bind m f km kf = record {
    at = λ e h g. let r = km.at e h g in (kf (m e).0).at (m e).1 r.0 r.1;
  }

  -- The same, to write a proof in the order of the code.
  pub Keeps-then :
      {A B : Type 0} {m : Act F W A} {f : A → Act F W B}
      → Keeps ref Kept m
      → ((a : A) → Keeps ref Kept (f a))
      → Keeps ref Kept (m >>= f)
  Keeps-then {m = m} {f = f} km kf = Keeps-bind m f km kf

  pub Keeps-if :
      {A : Type 0} (b : Bool) (m n : Act F W A)
      → Keeps ref Kept m
      → Keeps ref Kept n
      → Keeps ref Kept (if b then m else n)
  Keeps-if true m n km kn = km
  Keeps-if false m n km kn = kn

  pub Keeps-get : Keeps ref Kept (get {F = F} {W = W})
  unfolding get
  Keeps-get = record { at = λ e h g. (h, g) }

  -- What follows may use that the resource has the reference.
  pub Keeps-bind-get :
      {B : Type 0} (f : JiraSync F → Act F W B)
      → ((o : JiraSync F) → HasRef ref o → Keeps ref Kept (f o))
      → Keeps ref Kept (get >>= f)
  unfolding ◌>>=◌ get
  Keeps-bind-get f kf = record { at = λ e h g. (kf e.object g).at e h g }

  pub Keeps-modify :
      (f : JiraSync F → JiraSync F)
      → ((o : JiraSync F) → (f o).status.job_ref ≡ o.status.job_ref)
      → Keeps ref Kept (modify {F = F} {W = W} f)
  unfolding modify
  Keeps-modify f kf = record { at = λ e h g. (h, kf e.object ∙ g) }

  pub Keeps-call :
      {A : Type 0} (f : W → A × W)
      → ((w : W) → Kept w → Kept (f w).1)
      → Keeps ref Kept (call {F = F} {W = W} f)
  unfolding call
  Keeps-call f kf = record { at = λ e h g. (kf e.world h, g) }

  module _ {k : Cluster F W} {api : Api W} (holds : HoldsRef k api ref Kept) where
    pub save-Keeps : Keeps ref Kept (save k)
    unfolding save
    save-Keeps = record {
      at = λ e h g.
          let r = holds.update e.object e.world g h in
          updated_Held Kept e (k.update e.object e.world) g r.0 r.1;
    }

    pub save_status-Keeps : Keeps ref Kept (save_status k)
    unfolding save_status
    save_status-Keeps = record {
      at = λ e h g.
          let r = holds.update_status e.object e.world g h in
          updated_Held Kept e (k.update_status e.object e.world) g r.0 r.1;
    }

    pub now-Keeps : Keeps ref Kept (call {F = F} k.now)
    now-Keeps = Keeps-call k.now holds.now

pub ruleset keeps_rules = (Keeps-pure, Keeps-bind, Keeps-if, Keeps-get)
