-- ===== src/Operator/Config/Drift.antt =====
-- internal/operator/config/drift.go: DetectDrift, over the resources that Kubernetes has. They are read
-- twice, once to be compared and once for the hash, and may change in between.
pub mod Detection
pub mod Comparisons
pub mod Agreement
pub mod Differences
use jira_cdc_git.Prelude.{
  ℕ, Bool, true, false, not, ◌&&◌, ◌||◌, Option, none, some, List, [], ◌∷◌, ◌++◌, ◌==◌,
  if◌then◌else◌, take, length,
}
use jira_cdc_git.Prelude.Text.{Text, codes, text_eq}
use jira_cdc_git.Prelude.Assoc.{Assoc, lookup, insert}
use jira_cdc_git.Sync.Services.{Outcome, ok, fail}
use jira_cdc_git.Operator.Cluster.{Found, found, missing, broken}
use jira_cdc_git.Operator.Spec.{is_empty}
use jira_cdc_git.Operator.Config.{
  ApiServerConfig, ApiServerSpec, get_replica_value, get_config_value, get_service_value,
  get_port_value, get_service_port_value, get_enable_jobs_value, get_safe_mode_value,
}
use jira_cdc_git.Operator.Config.Detector.{text_or}

pub record DataDifference : Type 0 where
  pub expected : Text
  pub actual : Text
  pub type : Text

pub record ConfigMapDrift : Type 0 where
  pub is_missing : Bool
  pub data_differences : Assoc DataDifference

-- The field ResourcesDrift is left out: nothing is ever written into it.
pub record DeploymentDrift : Type 0 where
  pub is_missing : Bool
  pub replicas_drift : Option ℕ
  pub image_drift : Option Text
  pub environment_drift : Assoc Text
  pub config_hash_mismatch : Bool

pub record ServiceDrift : Type 0 where
  pub is_missing : Bool
  pub port_drift : Option ℕ
  pub type_drift : Option Text

pub record DriftResult : Type 0 where
  pub has_drift : Bool
  pub config_map_drift : ConfigMapDrift
  pub deployment_drift : DeploymentDrift
  pub service_drift : ServiceDrift
  pub spec_hash : Text
  pub actual_hash : Text
  pub recommendation : Text

-- An APIServer resource.
pub record Server : Type 0 where
  pub name : Text
  pub namespace : Text
  pub spec : ApiServerSpec

-- The first container of a Deployment's pods: its image and its variables.
pub record Container : Type 0 where
  pub image : Text
  pub env : List (Text × Text)

-- A pointer to an int32: where it points, as `%+v` prints it, and the number there.
pub record Pointer : Type 0 where
  pub address : Text
  pub value : ℕ

pub record Deployment : Type 0 where
  pub replicas : Option Pointer
  pub containers : List Container
  pub annotations : Assoc Text

-- A Service, with ports of type `P`.
pub record Service (P : Type 0) : Type 0 where
  pub type : Text
  pub ports : List P

-- `client.Get` of the resources by name and namespace.
pub record Live (P : Type 0) : Type 0 where
  pub get_config_map : Text → Text → Found (Assoc Text)
  pub get_deployment : Text → Text → Found Deployment
  pub get_service : Text → Text → Found (Service P)

-- SHA-256 in hexadecimal, what `fmt` prints, and the number of a port.
pub record Printer (P : Type 0) : Type 0 where
  pub sha256_hex : Text → Text
  -- an int32 and an int printed by `%d`
  pub print : ℕ → Text
  pub print_int : ℕ → Text
  -- the specification at hand printed by `%+v`, with the addresses of what its pointers point to
  pub print_spec : ApiServerSpec → Text
  -- the map of what was read, printed by `%+v`
  pub print_state :
      Option (Assoc Text) → Option (Option Pointer × Text) → Option (Text × List P) → Text
  pub print_list : List Text → Text
  pub port_number : P → ℕ

-- An entry is written if there is one.
abbrev pub insert_some {ℓ} : {V : Type ℓ} → Text → Option V → Assoc V → Assoc V
insert_some k none m = m
insert_some k (some v) m = insert k v m

-- The difference between an expected entry and the actual one.
unfoldable pub difference_of : Text → Option Text → Option DataDifference
difference_of e none = some (record { expected = e; actual = []; type = codes "missing" })
difference_of e (some a) =
    if text_eq a e
    then none
    else some (record { expected = e; actual = a; type = codes "different" })

unfoldable pub extra_of : Text → Option Text → Option DataDifference
extra_of a none = some (record { expected = []; actual = a; type = codes "extra" })
extra_of a (some e) = none

-- A loop over the entries of a map, which notes what `f` has for a key and its value.
unfoldable pub note_all : {V : Type 0} → (Text → Text → Option V) → Assoc Text → Assoc V → Assoc V
note_all f [] d = d
note_all f ((k, v) ∷ m) d = note_all f m (insert_some k (f k v) d)

-- The loop over the expected entries.
unfoldable pub compare_expected :
    Assoc Text → Assoc Text → Assoc DataDifference → Assoc DataDifference
compare_expected actual expected d = note_all (λ k e. difference_of e (lookup k actual)) expected d

-- The loop over the actual entries.
unfoldable pub find_extra : Assoc Text → Assoc Text → Assoc DataDifference → Assoc DataDifference
find_extra expected actual d = note_all (λ k a. extra_of a (lookup k expected)) actual d

unfoldable pub differences : Assoc Text → Assoc Text → Assoc DataDifference
differences expected actual = find_extra expected actual (compare_expected actual expected [])

unfoldable pub config_map_drifts : ConfigMapDrift → Bool
config_map_drifts d = d.is_missing || not (is_empty d.data_differences)

abbrev pub is_set {ℓ} : {A : Type ℓ} → Option A → Bool
is_set none = false
is_set (some a) = true

unfoldable pub deployment_drifts : DeploymentDrift → Bool
deployment_drifts d =
    d.is_missing
    || (is_set d.replicas_drift
        || (is_set d.image_drift || (not (is_empty d.environment_drift) || d.config_hash_mismatch)))

unfoldable pub service_drifts : ServiceDrift → Bool
service_drifts d = d.is_missing || (is_set d.port_drift || is_set d.type_drift)

abbrev pub expected_image : ApiServerSpec → Text
expected_image s = s.image.repository ++ (codes ":" ++ s.image.tag)

-- The variables of a container that have a value.
unfoldable pub actual_env : List (Text × Text) → Assoc Text → Assoc Text
actual_env [] m = m
actual_env ((name, value) ∷ es) m =
    actual_env es (if text_eq value [] then m else insert name value m)

-- What is noted of a variable that is not as expected: its value, or nothing if it is not there.
unfoldable pub changed_value : Text → Option Text → Option Text
changed_value e none = some []
changed_value e (some a) = if text_eq a e then none else some a

unfoldable pub changed_env : Assoc Text → Assoc Text → Assoc Text
changed_env actual expected = note_all (λ k e. changed_value e (lookup k actual)) expected []

-- A number or a text that is not the expected one.
abbrev pub other_number : ℕ → Option ℕ → Option ℕ
other_number e none = none
other_number e (some a) = if a == e then none else some a

abbrev pub value_of : Option Pointer → Option ℕ
value_of none = none
value_of (some p) = some p.value

abbrev pub other_text : Text → Text → Option Text
other_text e a = if text_eq a e then none else some a

abbrev pub other_hash : Text → Option Text → Bool
other_hash e none = false
other_hash e (some a) = not (text_eq a e)
