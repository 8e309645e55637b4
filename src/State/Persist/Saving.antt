-- ===== src/State/Persist/Saving.antt =====
-- pkg/state/manager.go: `SaveState` replaces the state file or leaves it, whatever fails.
use jira_cdc_git.Prelude.{
  ℕ, ◌-◌, ◌≤◌, ◌≡◌, refl, ◌≢◌, ◌⊎◌, inl, inr, false, Option, none, some, ◌++◌, arith, ltb, ltb→lt,
  Bool-cases, length, take, length-drop, take-append-drop,
}
use jira_cdc_git.Prelude.Text.{Text, codes, text_eq, text_eq_iff, text_eq-append_ne, text_eq-ne}
use jira_cdc_git.Prelude.Assoc.{lookup, insert, remove, lookup-insert, lookup-remove}
use jira_cdc_git.State.Types.{State}
use jira_cdc_git.State.Heap.{Heap}
use jira_cdc_git.State.Platform.{Platform, Disk, Faults}
use jira_cdc_git.State.Persist.{
  StateError, FileStateManager, get_state_file_path, dehydrate, stamp_state, write_state_file,
  write_encoded, save_present, torn_write, temp_file_path, max_history_entries,
}

temp_file_path-ne : (path : Text) → text_eq (temp_file_path path) path ≡ false
unfolding temp_file_path
temp_file_path-ne path = text_eq-append_ne path (codes "tmp") b'.'

-- A failed write leaves the other files.
lookup-torn_write :
    (t : Option Text) (path j : Text) (d : Disk)
    → text_eq path j ≡ false
    → lookup j (torn_write t path d) ≡ lookup j d
lookup-torn_write none path j d h = refl
lookup-torn_write (some part) path j d h = rw lookup-insert (rw h refl)

module _ (f : Faults) (d : Disk) (path bytes : Text) where
  write_state_file-path :
      let (d', e) = write_state_file f d path bytes in
      ((e ≡ none) × (lookup path d' ≡ some bytes)) ⊎ ((e ≢ none) × (lookup path d' ≡ lookup path d))
  unfolding write_state_file
  write_state_file-path =
      let temp = temp_file_path path in
      ground (
        arith,
        temp_file_path-ne path,
        text_eq_iff path path,
        lookup-torn_write f.torn temp path d,
        lookup-insert temp path bytes d,
        lookup-insert path path bytes (remove temp (insert temp bytes d)),
        lookup-remove temp path (insert temp bytes d),
      )

  -- No other file than the temporary one is touched.
  write_state_file-frame :
      (j : Text)
      → text_eq path j ≡ false
      → text_eq (temp_file_path path) j ≡ false
      → lookup j (write_state_file f d path bytes).0 ≡ lookup j d
  unfolding write_state_file
  write_state_file-frame j h k =
      let temp = temp_file_path path in
      ground (
        arith,
        lookup-torn_write f.torn temp j d,
        lookup-insert temp j bytes d,
        lookup-insert path j bytes (remove temp (insert temp bytes d)),
        lookup-remove temp j (insert temp bytes d),
      )

abbrev Replaced : Disk → Text → Option Text → Disk × Option StateError → Type 0
Replaced d path encoded r =
    ((r.1 ≡ none) × ((bytes : Text) × (encoded ≡ some bytes) × (lookup path r.0 ≡ some bytes)))
    ⊎ ((r.1 ≢ none) × (lookup path r.0 ≡ lookup path d))

write_encoded-path :
    (f : Faults) (d : Disk) (path : Text) (b : Option Text)
    → Replaced d path b (write_encoded f d path b)
unfolding write_encoded
write_encoded-path f d path none = inr (λ e. cc, refl)
write_encoded-path f d path (some bytes) = elim (write_state_file-path f d path bytes) [
  | inl r ↦ inl (r.0, (bytes, refl, r.1))
  | inr r ↦ inr r
]

write_encoded-frame :
    (f : Faults) (d : Disk) (path : Text) (b : Option Text) (j : Text)
    → text_eq path j ≡ false
    → text_eq (temp_file_path path) j ≡ false
    → lookup j (write_encoded f d path b).0 ≡ lookup j d
unfolding write_encoded
write_encoded-frame f d path none j h k = refl
write_encoded-frame f d path (some bytes) j h k = write_state_file-frame f d path bytes j h k

module _ (p : Platform) (m : FileStateManager) (f : Faults) (now : ℕ) (d : Disk) (h : Heap)
    (repo : Text) (s : State) where
  -- After a save either no error is returned and the state file holds the encoding of the stamped
  -- state, or an error is returned and the state file is what it was.
  pub save-atomic :
      let (d', s', e) = save_present p m f now d h repo s in
      let path = get_state_file_path m repo in
      ((e ≡ none)
        × ((bytes : Text) × (p.marshal m.format (dehydrate h (stamp_state now s)) ≡ some bytes)
            × (lookup path d' ≡ some bytes)))
      ⊎ ((e ≢ none) × (lookup path d' ≡ lookup path d))
  unfolding save_present
  save-atomic =
      write_encoded-path f d (get_state_file_path m repo)
        (p.marshal m.format (dehydrate h (stamp_state now s)))

  -- Whatever fails, a save touches no file but the state file and its temporary file.
  pub save-frame :
      (j : Text)
      → get_state_file_path m repo ≢ j
      → temp_file_path (get_state_file_path m repo) ≢ j
      → lookup j (save_present p m f now d h repo s).0 ≡ lookup j d
  unfolding save_present
  save-frame j a b =
      write_encoded-frame f d (get_state_file_path m repo)
        (p.marshal m.format (dehydrate h (stamp_state now s))) j (text_eq-ne _ _ a)
        (text_eq-ne _ _ b)

-- Stamping keeps the newest 50 operations of the history, in their order.
stamp_state-history :
    (now : ℕ) (s : State)
    → let kept = (stamp_state now s).history in
      (length kept ≤ max_history_entries)
      × (take (length s.history - max_history_entries) s.history ++ kept ≡ s.history)
unfolding stamp_state
stamp_state-history now s = elim (Bool-cases (ltb 50 (length s.history))) [
  | inl e ↦ rw e (
    omega (arith, length-drop (length s.history - 50) s.history, ltb→lt _ _ e),
    take-append-drop (length s.history - 50) s.history,
  )
  | inr e ↦ rw e (ground arith, rw (all_kept e))
]
  where
    all_kept : ltb 50 (length s.history) ≡ false → length s.history - 50 ≡ 0
    all_kept e = ground arith
