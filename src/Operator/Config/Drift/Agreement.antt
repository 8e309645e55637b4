-- ===== src/Operator/Config/Drift/Agreement.antt =====
-- internal/operator/config/drift.go: when DetectDrift reports a drift, an error, or panics.
use jira_cdc_git.Prelude.{◌≡◌, refl, true, false, Option, none, some, ◌++◌, ◌||◌, arith, ◌↔◌}
use jira_cdc_git.Prelude.Text.{Text, codes}
use jira_cdc_git.Prelude.Assoc.{Assoc, lookup, HasUniqueKeys, insert-HasUniqueKeys}
use jira_cdc_git.Sync.Services.{Outcome, ok, fail}
use jira_cdc_git.Operator.Cluster.{Found, found, missing, broken}
use jira_cdc_git.Operator.Config.{get_replica_value, get_service_value, get_service_port_value}
use jira_cdc_git.Jobs.Manifest.{Returned, returned, failed_to, panicked}
use jira_cdc_git.Operator.Config.Drift.{
  ConfigMapDrift, DeploymentDrift, ServiceDrift, DriftResult, Server, Pointer, Deployment, Service,
  Live, Printer, config_map_drifts, deployment_drifts, service_drifts, expected_image, value_of,
}
use jira_cdc_git.Operator.Config.Drift.Detection.{
  expected_service_type, hashed_deployment, spec_hash, expected_data, detect_config_map_drift,
  detect_deployment_drift, first_port, detect_service_drift, drift_result, collect_drift,
  generate_actual_hash, hash_of_live, detect_drift,
}
use jira_cdc_git.Operator.Config.Drift.Differences.{is_empty-differences}
use jira_cdc_git.Operator.Config.Drift.Comparisons.{
  IsUnless, HasImage, HasEnv, is_broken, IsFound, HasUniqueData, Compares, or_false, not-false,
  other_number-IsUnless, other_text_iff, other_hash-IsUnless, image_drift-HasImage,
  environment_drift-HasEnv, insert_if-HasUniqueKeys,
}

module _ {P : Type 0} (f : Printer P) (s : Server) where
  expected_data-HasUniqueKeys : HasUniqueKeys (expected_data f s)
  unfolding expected_data
  expected_data-HasUniqueKeys = search (insert-HasUniqueKeys, insert_if-HasUniqueKeys) depth 12

  -- What is compared of the Deployment is as expected: the number of replicas if it is set, the image and
  -- the variables of the first container if there is one, and the annotation if it has one. Resources,
  -- the pull policy and all else are not compared.
  abbrev pub DeploymentAgrees : Deployment → Type 0
  DeploymentAgrees d =
      IsUnless (get_replica_value s.spec.replicas) (value_of d.replicas)
      × (HasImage (expected_image s.spec) d.containers
          × (HasEnv (expected_data f s) d.containers
              × IsUnless (spec_hash f s.spec) (lookup (codes "config-hash") d.annotations)))

  abbrev pub ConfigMapAgrees : Assoc Text → Type 0
  ConfigMapAgrees m = (k : Text) → lookup k m ≡ lookup k (expected_data f s)

  -- The Service has the type and, at its first port, the number that are expected.
  abbrev pub ServiceAgrees : Service P → Type 0
  ServiceAgrees v =
      IsUnless (get_service_port_value (get_service_value s.spec.service).port)
        (first_port f v.ports)
      × (v.type ≡ expected_service_type s.spec)

  config_map-Compares :
      (m : Found (Assoc Text))
      → HasUniqueData m
      → Compares config_map_drifts ConfigMapAgrees m (detect_config_map_drift f s m)
  unfolding detect_config_map_drift config_map_drifts
  config_map-Compares missing h = ground arith
  config_map-Compares (broken e) h = refl
  config_map-Compares (found m) h =
      not-false (is_empty-differences (expected_data f s) m expected_data-HasUniqueKeys h)

  service-Compares :
      (v : Found (Service P)) → Compares service_drifts ServiceAgrees v (detect_service_drift f s v)
  unfolding detect_service_drift service_drifts
  service-Compares missing = ground arith
  service-Compares (broken e) = refl
  service-Compares (found v) =
      or_false
        (other_number-IsUnless (get_service_port_value (get_service_value s.spec.service).port)
          (first_port f v.ports))
        (other_text_iff (expected_service_type s.spec) v.type)

  deployment-Compares :
      (d : Found Deployment)
      → Compares deployment_drifts DeploymentAgrees d (detect_deployment_drift f s d)
  unfolding detect_deployment_drift deployment_drifts
  deployment-Compares missing = ground arith
  deployment-Compares (broken e) = refl
  deployment-Compares (found d) =
      or_false (other_number-IsUnless (get_replica_value s.spec.replicas) (value_of d.replicas)) (
        or_false (image_drift-HasImage (expected_image s.spec) d.containers) (
          or_false
            (environment_drift-HasEnv (expected_data f s) d.containers expected_data-HasUniqueKeys)
            (other_hash-IsUnless (spec_hash f s.spec)
              (lookup (codes "config-hash") d.annotations))))

  -- What DetectDrift comes to, by what it compared and what it hashed: no drift exactly if the three
  -- resources are there and are as the three predicates above say, an error of a read, and a panic of a
  -- Deployment without containers.
  abbrev pub Judges :
      Found (Assoc Text)
      → Found Deployment
      → Found (Service P)
      → Found Deployment
      → Returned DriftResult
      → Type 0
  Judges m d v hashed (returned r) =
      (r.has_drift ≡ false)
      ↔ (IsFound ConfigMapAgrees m × (IsFound DeploymentAgrees d × IsFound ServiceAgrees v))
  Judges m d v hashed (failed_to e) = (is_broken m || (is_broken d || is_broken v)) ≡ true
  Judges m d v hashed panicked = hashed_deployment hashed ≡ none

  result-Judges :
      (m : Found (Assoc Text)) (d : Found Deployment) (v : Found (Service P)) (c : ConfigMapDrift)
      (w : DeploymentDrift) (x : ServiceDrift) (hm : Found (Assoc Text)) (hd : Found Deployment)
      (hv : Found (Service P)) (o : Option (Option (Option Pointer × Text)))
      → Compares config_map_drifts ConfigMapAgrees m (ok c)
      → Compares deployment_drifts DeploymentAgrees d (ok w)
      → Compares service_drifts ServiceAgrees v (ok x)
      → hashed_deployment hd ≡ o
      → Judges m d v hd (drift_result f s c w x (hash_of_live f hm o hv))
  unfolding drift_result hash_of_live
  result-Judges m d v c w x hm hd hv none p q r e = e
  result-Judges m d v c w x hm hd hv (some y) p q r e = or_false p (or_false q r)

  drift_result-Judges :
      (m : Found (Assoc Text)) (d : Found Deployment) (v : Found (Service P)) (hashed : Live P)
      (oc : Outcome ConfigMapDrift) (od : Outcome DeploymentDrift) (ov : Outcome ServiceDrift)
      → Compares config_map_drifts ConfigMapAgrees m oc
      → Compares deployment_drifts DeploymentAgrees d od
      → Compares service_drifts ServiceAgrees v ov
      → Judges m d v
          (hashed.get_deployment (s.name ++ codes "-deployment") s.namespace)
          (collect_drift f s hashed oc od ov)
  unfolding collect_drift generate_actual_hash
  drift_result-Judges m d v hashed (fail e) od ov p q r = ground (arith, p)
  drift_result-Judges m d v hashed (ok c) (fail e) ov p q r = ground (arith, q)
  drift_result-Judges m d v hashed (ok c) (ok w) (fail e) p q r = ground (arith, r)
  drift_result-Judges m d v hashed (ok c) (ok w) (ok x) p q r =
      result-Judges m d v c w x (hashed.get_config_map (s.name ++ codes "-config") s.namespace)
        (hashed.get_deployment (s.name ++ codes "-deployment") s.namespace)
        (hashed.get_service (s.name ++ codes "-service") s.namespace) _ p q r refl

  -- If the ConfigMap that is read, if one is, has each key once: a result of DetectDrift says no drift
  -- exactly if the ConfigMap is there with exactly the expected entries; the Deployment is there, and
  -- its number of replicas if set, the image of its first container if it has one, the expected
  -- variables if that container has any with a value, and its annotation `config-hash` if it has one,
  -- are the expected ones; and the Service is there with the expected type and, if it has a port, the
  -- expected number of the first. Nothing else is compared. An error comes only of one of these reads,
  -- and a panic only of a hashed Deployment without a container.
  pub detect_drift-Judges :
      (compared hashed : Live P)
      → HasUniqueData (compared.get_config_map (s.name ++ codes "-config") s.namespace)
      → Judges
          (compared.get_config_map (s.name ++ codes "-config") s.namespace)
          (compared.get_deployment (s.name ++ codes "-deployment") s.namespace)
          (compared.get_service (s.name ++ codes "-service") s.namespace)
          (hashed.get_deployment (s.name ++ codes "-deployment") s.namespace)
          (detect_drift f s compared hashed)
  unfolding detect_drift
  detect_drift-Judges compared hashed h =
      let m = compared.get_config_map (s.name ++ codes "-config") s.namespace in
      let d = compared.get_deployment (s.name ++ codes "-deployment") s.namespace in
      let v = compared.get_service (s.name ++ codes "-service") s.namespace in
      drift_result-Judges m d v hashed (detect_config_map_drift f s m)
        (detect_deployment_drift f s d) (detect_service_drift f s v) (config_map-Compares m h)
        (deployment-Compares d) (service-Compares v)
