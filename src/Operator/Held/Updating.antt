-- ===== src/Operator/Held/Updating.antt =====
-- internal/operator/controllers: the updates of a status leave the job reference as it is.
use jira_cdc_git.Prelude.{ℕ, ◌≡◌, refl, Bool, true, false, Option, none, some, List, [], ◌∷◌, arith}
use jira_cdc_git.Prelude.Text.{Text}
use jira_cdc_git.Operator.Types.{Condition, JobReference, JiraSyncStatus}
use jira_cdc_git.Operator.Cluster.{Cluster, Api, call}
use jira_cdc_git.Operator.Status.{StatusUpdate, set_condition, given_option}
use jira_cdc_git.Operator.Status.Update.{
  emit, update_phase, update_conditions, emit_error, merge_error, set_health, prepare_status,
  update_status, new_condition, report_progress,
}
use jira_cdc_git.Operator.Phase
use jira_cdc_git.Operator.Phase.{in_phase, update_status_with_delay}
use jira_cdc_git.Operator.Held.{
  HoldsRef, Keeps, Keeps-pure, Keeps-then, Keeps-bind-get, Keeps-modify, Keeps-call,
  save_status-Keeps, now-Keeps, keeps_rules,
}

module _ {F W : Type 0} {ref : Option JobReference} {Kept : W → Type 0} {k : Cluster F W}
    {api : Api W} (holds : HoldsRef k api ref Kept) where
  emit-Keeps : (type reason message : Text) → Keeps ref Kept (emit k type reason message)
  emit-Keeps type reason message = Keeps-call _ (holds.event type reason message)

  update_phase-Keeps : (phase : Text) → Keeps ref Kept (update_phase k phase)
  unfolding update_phase
  update_phase-Keeps phase = search (keeps_rules, Keeps-modify, emit-Keeps)

  set_condition-Kept :
      (n : Condition) (cs : List Condition) (w : W) → Kept w → Kept (set_condition k n cs w).1
  unfolding set_condition
  set_condition-Kept n [] w h = holds.now w h
  set_condition-Kept n (c ∷ cs) w h = ground (arith, set_condition-Kept n cs w h, holds.now w h)

  place-Keeps :
      (n : Condition) (cs : List Condition) → Keeps ref Kept (call {F = F} (set_condition k n cs))
  place-Keeps n cs = Keeps-call _ (set_condition-Kept n cs)

  update_conditions-Keeps : (ns : List Condition) → Keeps ref Kept (update_conditions k ns)
  unfolding update_conditions
  update_conditions-Keeps [] = Keeps-pure tt
  update_conditions-Keeps (n ∷ ns) = Keeps-bind-get _ λ o _.
      Keeps-then (place-Keeps n _)
        λ cs. Keeps-then (Keeps-modify _ λ o. refl) λ _. update_conditions-Keeps ns

  emit_error-Keeps : (e : Option Text) → Keeps ref Kept (emit_error k e)
  emit_error-Keeps none = Keeps-pure tt
  emit_error-Keeps (some e) = search emit-Keeps

  given_option-none : (a b : Option JobReference) → a ≡ none → given_option a b ≡ b
  given_option-none none b h = refl
  given_option-none (some j) b h = cc

  merge_error-job_ref :
      (e : Option Text) (n : ℕ) (clear : Bool) (s : JiraSyncStatus F)
      → (merge_error e n clear s).job_ref ≡ s.job_ref
  merge_error-job_ref none n true s = refl
  merge_error-job_ref none n false s = refl
  merge_error-job_ref (some e) n clear s = refl

  pub prepare_status-Keeps :
      (u : StatusUpdate F) → u.job_ref ≡ none → Keeps ref Kept (prepare_status k u)
  unfolding prepare_status set_health
  prepare_status-Keeps u h = Keeps-then (now-Keeps holds) λ t.
      Keeps-then (Keeps-modify _ λ o. refl) λ _. Keeps-then (update_phase-Keeps u.phase) λ _.
        Keeps-then (update_conditions-Keeps u.conditions) λ _.
          Keeps-then (Keeps-modify _ λ o. merge_error-job_ref u.error u.retry_count u.clear_error _)
            λ _.
              Keeps-then (emit_error-Keeps u.error)
                λ _. Keeps-modify _ λ o. given_option-none u.job_ref _ h

  pub update_status-Keeps :
      (u : StatusUpdate F) → u.job_ref ≡ none → Keeps ref Kept (update_status k u)
  unfolding update_status
  update_status-Keeps u h = search (keeps_rules, prepare_status-Keeps u h, save_status-Keeps holds)

  pub report_progress-Keeps :
      (percentage : ℕ) (operation stage : Text)
      → Keeps ref Kept (report_progress k percentage operation stage)
  unfolding report_progress new_condition
  report_progress-Keeps percentage operation stage =
      Keeps-then (search (keeps_rules, now-Keeps holds)) λ c. update_status-Keeps _ refl

  -- The reconciler's own updates of the phase.
  pub set_phase-Keeps :
      (phase message : Text) → Keeps ref Kept (Phase.update_status k phase message)
  unfolding Phase.update_status in_phase
  set_phase-Keeps phase message = Keeps-then (now-Keeps holds) λ t.
      Keeps-then (Keeps-modify _ λ o. refl)
        λ _. Keeps-then (save_status-Keeps holds) λ e. Keeps-pure _

  pub set_phase_with_delay-Keeps :
      (phase message : Text) (delay : ℕ)
      → Keeps ref Kept (update_status_with_delay k phase message delay)
  unfolding update_status_with_delay
  set_phase_with_delay-Keeps phase message delay = search (keeps_rules, set_phase-Keeps)
