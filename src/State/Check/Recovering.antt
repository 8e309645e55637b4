-- ===== src/State/Check/Recovering.antt =====
-- pkg/state/manager.go: what `RecoverState` changes.
use jira_cdc_git.Prelude.{◌≡◌, refl, ap, Bool, true, false, Option, none, some, List, [], ◌∷◌}
use jira_cdc_git.Prelude.Text.{Text}
use jira_cdc_git.Prelude.Assoc.{Assoc}
use jira_cdc_git.State.Types.{State, RecoveryAction, repair_state, StateRecoveryOptions}
use jira_cdc_git.State.Platform.{Platform, Disk, Faults, WalkEntry}
use jira_cdc_git.State.Persist.{StateError, FileStateManager}
use jira_cdc_git.State.Check.{
  validate_state, backup_if, recover_after, Recovery, recover_action, recover_actions,
  recover_state,
}

abbrev pub has_repair : List RecoveryAction → Bool
has_repair [] = false
has_repair (repair_state ∷ as_) = true
has_repair (_ ∷ as_) = has_repair as_

recover_actions_dry :
    (f : Faults) (as_ : List RecoveryAction) (v : Recovery) → recover_actions f true as_ v ≡ v
unfolding recover_actions recover_action
recover_actions_dry f [] v = refl
recover_actions_dry f (repair_state ∷ as_) v = recover_actions_dry f as_ v
recover_actions_dry f (a ∷ as_) v = recover_actions_dry f as_ v

module _ (f : Faults) (o : StateRecoveryOptions) (v : Recovery) where
  recover_after_dry : (e : Option StateError) → o.dry_run ≡ true → recover_after f o e v ≡ (v, e)
  unfolding recover_after
  recover_after_dry (some x) dry = refl
  recover_after_dry none dry = rw dry (ap (λ w. (w, none)) (recover_actions_dry f o.actions v))

module _ (p : Platform) (m : FileStateManager) (f : Faults) (d : Disk)
    (walk : Option (List WalkEntry)) (repo : Text) (s : State) (o : StateRecoveryOptions) where
  -- A dry run leaves the state, and changes the disk only by the backup that is asked for; its result is
  -- that of the validation.
  pub recover_state_dry :
      o.dry_run ≡ true
      → let v = (recover_state p m f d walk repo s o).0 in
        (v.state ≡ s)
        × (v.disk ≡ (backup_if o.backup_first m f d repo).0)
        × (v.result ≡ validate_state p f d walk s)
  unfolding recover_state
  recover_state_dry dry =
      let backup = backup_if o.backup_first m f d repo in
      let start : Recovery = record {
        disk = backup.0;
        state = s;
        result = validate_state p f d walk s;
      } in
      let same = recover_after_dry f o start backup.1 dry in
      (
        ap (λ (r : Recovery × Option StateError). r.0.state) same,
        ap (λ (r : Recovery × Option StateError). r.0.disk) same,
        ap (λ (r : Recovery × Option StateError). r.0.result) same,
      )
