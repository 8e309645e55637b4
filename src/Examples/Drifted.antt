-- ===== src/Examples/Drifted.antt =====
-- An API server with its resources, and the theorem on the drift that is detected of them.
use jira_cdc_git.Prelude.{ℕ, refl, some, List, [], ◌∷◌}
use jira_cdc_git.Prelude.Text.{codes, text_eq}
use jira_cdc_git.Prelude.Assoc.{Assoc, lookup}
use jira_cdc_git.Operator.Cluster.{Found, found}
use jira_cdc_git.Operator.Config.Drift.{Server, Deployment, Live, Printer}
use jira_cdc_git.Operator.Config.Drift.Detection.{detect_drift}
use jira_cdc_git.Operator.Config.Drift.Agreement.{Judges, detect_drift-Judges}
use jira_cdc_git.Examples.Configured.{server}

abbrev printer : Printer ℕ
printer = record {
  sha256_hex = λ t. t;
  print = λ n. n ∷ [];
  print_int = λ n. n ∷ [];
  print_spec = λ s. s.image.repository;
  print_state = λ m d v. [];
  print_list = λ ts. [];
  port_number = λ n. n;
}

abbrev api : Server
api = record { name = codes "api"; namespace = codes "ns"; spec = server }

-- A ConfigMap with one entry that is not expected, and most that are expected missing.
abbrev data_now : Found (Assoc (List ℕ))
data_now = found ((codes "LOG_LEVEL", codes "INFO") ∷ (codes "OLD", codes "1") ∷ [])

abbrev deployment_now : Found Deployment
deployment_now = found (record {
  replicas = some (record { address = codes "0xc0"; value = 3 });
  containers = record { image = codes "repo:v1"; env = [] } ∷ [];
  annotations = [];
})

abbrev live : Live ℕ
live = record {
  get_config_map = λ n s. data_now;
  get_deployment = λ n s. deployment_now;
  get_service = λ n s. found (record { type = codes "ClusterIP"; ports = 80 ∷ [] });
}

detect_drift-Judges_example :
    Judges printer api data_now deployment_now
      (found (record { type = codes "ClusterIP"; ports = 80 ∷ [] }))
      deployment_now
      (detect_drift printer api live live)
unfolding lookup text_eq
detect_drift-Judges_example = detect_drift-Judges printer api live live (refl, (refl, tt))
