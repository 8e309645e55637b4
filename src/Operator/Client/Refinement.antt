-- ===== src/Operator/Client/Refinement.antt =====
-- internal/operator/apiclient/client.go: the client's requests and direct health checks, against a
-- client that keeps a count of failures in a row and the time of the last one.
use jira_cdc_git.Prelude.{
  ℕ, ap, ◌++◌, ◌≡◌, refl, ◌<◌, Bool, true, false, Option, List, [], ◌∷◌, inl, inr, leb, ltb,
  Bool-cases, arith, if◌then◌else◌,
}
use jira_cdc_git.Prelude.Text.{Text, codes}
use jira_cdc_git.Sync.Services.{Outcome, ok, fail}
use jira_cdc_git.Operator.Api.{ApiRequest}
use jira_cdc_git.Operator.Breaker.{
  closed, half_open, CircuitBreaker, check_state, check_circuit_breaker, record_failure,
  record_success, reset_open,
}
use jira_cdc_git.Operator.Breaker.Gate.{Gate, allows, failed_at, succeeded, healthy, breaker_of}
use jira_cdc_git.Operator.Client.{
  HttpRequest, HttpResponse, Network, Client, build_request, settle, send, clock_for, send_if,
  make_http_request, reset_if_ok, perform_health, direct_health_check, health_request,
}

-- A call of the client, and what it returns.
pub data Call : Type 0 where
  request : Text → Text → Option ApiRequest → Call
  direct_health : Call

pub data Reply : Type 0 where
  response : Outcome HttpResponse → Reply
  health : Outcome (Unit {0}) → Reply

module _ {W : Type 0} (net : Network W) (c : Client) where
  unfoldable pub perform_call : Call → CircuitBreaker → W → Reply × (CircuitBreaker × W)
  unfolding make_http_request direct_health_check
  perform_call (request method endpoint body) b w =
      let r = make_http_request net c method endpoint body b w in (response r.0, r.1)
  perform_call direct_health b w = let r = direct_health_check net c b w in (health r.0, r.1)

  unfoldable pub run : List Call → CircuitBreaker → W → List Reply × (CircuitBreaker × W)
  unfolding perform_call
  run [] b w = ([], (b, w))
  run (k ∷ ks) b w =
      let r = perform_call k b w in let rest = run ks r.1.0 r.1.1 in (r.0 ∷ rest.0, rest.1)

  -- The request that a call makes could be built.
  abbrev pub IsBuilt : Call → Type 0
  IsBuilt (request method endpoint body) =
      (r : HttpRequest) × (build_request net c method endpoint body ≡ ok r)
  IsBuilt direct_health = Unit

  abbrev pub AreBuilt : List Call → Type 0
  AreBuilt [] = Unit
  AreBuilt (k ∷ ks) = IsBuilt k × AreBuilt ks

  module _ (limit timeout : ℕ) where
    -- The abstract client: what an answer does to the gate.
    unfoldable pub gate_settle : Gate → Outcome HttpResponse × W → Outcome HttpResponse × (Gate × W)
    gate_settle g (fail e, w) =
        let t = net.now w in
        (fail (codes "request failed: " ++ e), (failed_at limit timeout t.0 g, t.1))
    gate_settle g (ok resp, w) =
        let t = net.now w in
        if leb 500 resp.status_code
        then (ok resp, (failed_at limit timeout t.0 g, t.1))
        else (ok resp, (succeeded limit timeout g, w))

    unfoldable pub gate_send :
        Bool → Outcome HttpRequest → Gate → W → Outcome HttpResponse × (Gate × W)
    unfolding gate_settle
    gate_send true (ok req) g w = gate_settle g (net.perform req w)
    gate_send true (fail e) g w = (fail e, (g, w))
    gate_send false req g w =
        (fail (codes "circuit breaker is open - API requests blocked"), (g, w))

    abbrev pub gate_clock : Gate → W → ℕ × W
    gate_clock g w = if ltb g.failures limit then (0, w) else net.now w

    abbrev pub gate_health : Outcome (Unit {0}) → Gate → Gate
    gate_health (ok u) g = healthy limit timeout g
    gate_health (fail e) g = g

    unfoldable pub gate_call : Call → Gate → W → Reply × (Gate × W)
    unfolding gate_send
    gate_call (request method endpoint body) g w =
        let t = gate_clock g w in
        let r =
          gate_send (allows limit timeout t.0 g) (build_request net c method endpoint body) g t.1 in
        (response r.0, r.1)
    gate_call direct_health g w =
        let r = perform_health net (health_request net c) w in
        (health r.0, (gate_health r.0 g, r.1))

    unfoldable pub gate_run : List Call → Gate → W → List Reply × (Gate × W)
    unfolding gate_call
    gate_run [] g w = ([], (g, w))
    gate_run (k ∷ ks) g w =
        let r = gate_call k g w in let rest = gate_run ks r.1.0 r.1.1 in (r.0 ∷ rest.0, rest.1)

    -- The breaker of a client, in place of the gate.
    abbrev pub with_breaker : {A : Type 0} → A × (Gate × W) → A × (CircuitBreaker × W)
    with_breaker x = (x.0, (breaker_of limit timeout x.1.0, x.1.1))

    -- The breaker of a request that was let through.
    abbrev admitted_of : Gate → CircuitBreaker
    admitted_of g = record (breaker_of limit timeout g) {
      state = if ltb g.failures limit then closed else half_open;
    }

    settle-gate_settle :
        (g : Gate) (x : Outcome HttpResponse × W)
        → 0 < limit
        → settle net (admitted_of g) x ≡ with_breaker (gate_settle g x)
    unfolding settle gate_settle record_failure record_success
    settle-gate_settle g (fail e, w) h = ground arith
    settle-gate_settle g (ok resp, w) h = ground arith

    make_http_request-gate_call :
        (method endpoint : Text) (body : Option ApiRequest) (g : Gate) (w : W)
        → 0 < limit
        → IsBuilt (request method endpoint body)
        → perform_call (request method endpoint body) (breaker_of limit timeout g) w
          ≡ with_breaker (gate_call (request method endpoint body) g w)
    unfolding perform_call make_http_request gate_call gate_send send_if send clock_for
        check_circuit_breaker check_state
    make_http_request-gate_call method endpoint body g w h built =
        elim (Bool-cases (ltb g.failures limit)) [
          | inl e ↦ ground (arith, e, built.1, settle-gate_settle g (net.perform built.0 w) h)
          | inr e ↦
              ground (arith, e, built.1, settle-gate_settle g (net.perform built.0 (net.now w).1) h)
        ]

    reset_if_ok-gate_health :
        (g : Gate) (r : Outcome (Unit {0}))
        → 0 < limit
        → reset_if_ok r (breaker_of limit timeout g) ≡ breaker_of limit timeout (gate_health r g)
    unfolding reset_open
    reset_if_ok-gate_health g (fail e) h = refl
    reset_if_ok-gate_health g (ok u) h = ground arith

    perform_call-gate_call :
        (k : Call) (g : Gate) (w : W)
        → 0 < limit
        → IsBuilt k
        → perform_call k (breaker_of limit timeout g) w ≡ with_breaker (gate_call k g w)
    unfolding perform_call direct_health_check gate_call
    perform_call-gate_call (request method endpoint body) g w h built =
        make_http_request-gate_call method endpoint body g w h built
    perform_call-gate_call direct_health g w h built =
        let r = perform_health net (health_request net c) w in
        ap (λ (b : CircuitBreaker). (health r.0, (b, r.1))) (reset_if_ok-gate_health g r.0 h)

    -- A sequence of requests, all of which can be built, and of direct health checks gets the same
    -- replies from a client with a circuit breaker as from one that counts the failures in a row and
    -- keeps the time of the last, lets a request through unless the limit is reached and the timeout
    -- has not passed since, and forgets the failures on a success and, if the limit is reached, on a
    -- direct health check that succeeds. The clients' states correspond at the end, and the world is
    -- the same.
    pub run-gate_run :
        (ks : List Call) (g : Gate) (w : W)
        → 0 < limit
        → AreBuilt ks
        → run ks (breaker_of limit timeout g) w ≡ with_breaker (gate_run ks g w)
    unfolding run gate_run
    run-gate_run [] g w h built = refl
    run-gate_run (k ∷ ks) g w h built =
        let r = gate_call k g w in
        ground
          (arith, perform_call-gate_call k g w h built.0, run-gate_run ks r.1.0 r.1.1 h built.1)
