-- ===== src/Operator/Config/Validation/Bounds.antt =====
-- internal/operator/config/validation.go: the numbers of a specification that is valid.
use jira_cdc_git.Prelude.{
  ℕ, ◌≡◌, refl, ◌≤◌, ◌<◌, ◌^◌, true, ◌&&◌, Option, none, some, List, [], ◌∷◌, ◌++◌, arith,
}
use jira_cdc_git.Prelude.Text.{codes, Text}
use jira_cdc_git.Operator.Config.{
  ApiServerConfig, ServiceConfig, ApiServerSpec, get_config_value, get_service_value,
}
use jira_cdc_git.Operator.Config.Validation.{
  ValidationError, Checks, no_errors, validate_image_spec, validate_replicas, validate_resources,
  validate_port, validate_service_config, validate_log_level, validate_log_format,
  validate_api_server_config, validate_jira_credentials, validate_api_server_spec,
}

-- A number that is set, and fits 32 bits, lies in a range.
abbrev pub LiesIn : ℕ → ℕ → Option ℕ → Type 0
LiesIn low high none = Unit
LiesIn low high (some n) = n < 2 ^ 32 → (low ≤ n) × (n ≤ high)

no_errors-append :
    (xs ys : List ValidationError) → no_errors (xs ++ ys) ≡ (no_errors xs && no_errors ys)
no_errors-append [] ys = refl
no_errors-append (x ∷ xs) ys = refl

no_errors_right : (xs ys : List ValidationError) → no_errors (xs ++ ys) ≡ true → no_errors ys ≡ true
no_errors_right xs ys h = ground (arith, no_errors-append xs ys)

no_errors_left : (xs ys : List ValidationError) → no_errors (xs ++ ys) ≡ true → no_errors xs ≡ true
no_errors_left xs ys h = ground (arith, no_errors-append xs ys)

port-LiesIn :
    (least : ℕ) (field message : Text) (p : Option ℕ)
    → least < 2 ^ 31
    → no_errors (validate_port least field message p) ≡ true
    → LiesIn least 65535 p
unfolding validate_port
port-LiesIn least field message none small h = tt
port-LiesIn least field message (some p) small h = λ fits. (ground arith, ground arith)

replicas-LiesIn : (r : Option ℕ) → no_errors (validate_replicas r) ≡ true → LiesIn 1 10 r
unfolding validate_replicas
replicas-LiesIn none h = tt
replicas-LiesIn (some r) h = λ fits. (ground arith, ground arith)

service-LiesIn :
    (s : Option ServiceConfig)
    → no_errors (validate_service_config s) ≡ true
    → LiesIn 1 65535 (get_service_value s).port
unfolding validate_service_config
service-LiesIn none h = tt
service-LiesIn (some s) h = port-LiesIn 1 _ _ s.port (omega arith) (no_errors_right _ _ h)

module _ (k : Checks) where
  config-LiesIn :
      (c : Option ApiServerConfig)
      → no_errors (validate_api_server_config k c) ≡ true
      → LiesIn 1024 65535 (get_config_value c).port
  unfolding validate_api_server_config
  config-LiesIn none h = tt
  config-LiesIn (some c) h =
      let field = codes "config.port" in
      let message = codes "port must be between 1024 and 65535" in
      let port = validate_port 1024 field message c.port in
      port-LiesIn 1024 field message c.port (omega arith) (
        no_errors_right (validate_log_format k c.log_format) port (
          no_errors_right (validate_log_level k c.log_level)
            (validate_log_format k c.log_format ++ port) h))

  -- In a valid specification, the number of replicas is 1 to 10, the port of the server 1024 to 65535
  -- and that of the service 1 to 65535, where they are set, as numbers of 32 bits.
  pub validate_api_server_spec-LiesIn :
      (s : ApiServerSpec) (namespace : Text)
      → (validate_api_server_spec k s namespace).valid ≡ true
      → LiesIn 1 10 s.replicas
        × LiesIn 1024 65535 (get_config_value s.config).port
        × LiesIn 1 65535 (get_service_value s.service).port
  unfolding validate_api_server_spec
  validate_api_server_spec-LiesIn s namespace h =
      let a = validate_jira_credentials k namespace s.jira_credentials in
      let b = validate_image_spec s.image in
      let d = validate_replicas s.replicas in
      let e = validate_resources s.resources in
      let f = validate_api_server_config k s.config in
      let g = validate_service_config s.service in
      let from_d =
        no_errors_right b (d ++ (e ++ (f ++ g)))
          (no_errors_right a (b ++ (d ++ (e ++ (f ++ g)))) h) in
      let from_f = no_errors_right e (f ++ g) (no_errors_right d (e ++ (f ++ g)) from_d) in
      (
        replicas-LiesIn s.replicas (no_errors_left d (e ++ (f ++ g)) from_d),
        config-LiesIn s.config (no_errors_left f g from_f),
        service-LiesIn s.service (no_errors_right f g from_f),
      )
