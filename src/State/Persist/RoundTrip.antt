-- ===== src/State/Persist/RoundTrip.antt =====
-- pkg/state/manager.go: `LoadState` after `SaveState`.
use jira_cdc_git.Prelude.{ℕ, ◌≡◌, refl, ap, inl, inr, false, Option, none, some}
use jira_cdc_git.Prelude.Text.{Text}
use jira_cdc_git.Prelude.Assoc.{lookup}
use jira_cdc_git.State.Types.{SyncOperation, State, StateFile}
use jira_cdc_git.State.Heap.{Heap, update_self}
use jira_cdc_git.State.Platform.{Platform, Disk, Faults}
use jira_cdc_git.State.Persist.{
  ok, FileStateManager, get_state_file_path, hydrate, hydrate_last, dehydrate, dehydrate_last,
  load_state, stamp_state, save_present,
}
use jira_cdc_git.State.Persist.Saving.{save-atomic}

-- Following the pointer to a decoded operation gives that operation.
dehydrate_last-hydrate_last :
    (h : Heap) (o : Option SyncOperation)
    → dehydrate_last (hydrate_last h o).0 (hydrate_last h o).1 ≡ o
dehydrate_last-hydrate_last h none = refl
dehydrate_last-hydrate_last h (some op) = ap some (update_self h.cell h.next op)

abbrev Encodes : Platform → FileStateManager → StateFile → Type 0
Encodes p m file =
    (bytes : Text) → p.marshal m.format file ≡ some bytes → p.unmarshal m.format bytes ≡ some file

-- Decoding what a stamped state encodes to.
hydrate-stamped :
    (now : ℕ) (h h2 : Heap) (s : State)
    → let file = dehydrate h (stamp_state now s) in
      dehydrate (hydrate h2 file).0 (hydrate h2 file).1 ≡ file
unfolding hydrate dehydrate stamp_state
hydrate-stamped now h h2 s =
    ap (λ l. let file = dehydrate h (stamp_state now s) in record file { last_sync = l })
      (dehydrate_last-hydrate_last h2 (dehydrate_last h s.last_sync))

load_of_bytes :
    (p : Platform) (m : FileStateManager) (f : Faults) (d : Disk) (h : Heap) (repo bytes : Text)
    (file : StateFile)
    → lookup (get_state_file_path m repo) d ≡ some bytes
    → f.read (get_state_file_path m repo) ≡ false
    → p.unmarshal m.format bytes ≡ some file
    → load_state p m f d h repo ≡ ok (hydrate h file)
unfolding load_state
load_of_bytes p m f d h repo bytes file a b c = rw (a, b, c, load_state)

-- A state that was saved without an error is loaded again without an error, with every field as
-- stamped and `LastSync` pointing to an equal operation, provided that the format decodes what it
-- encoded and the file can be read.
pub load-save :
    (p : Platform) (m : FileStateManager) (f f2 : Faults) (now : ℕ) (d : Disk) (h h2 : Heap)
    (repo : Text) (s : State)
    → Encodes p m (dehydrate h (stamp_state now s))
    → f2.read (get_state_file_path m repo) ≡ false
    → (save_present p m f now d h repo s).2 ≡ none
    → (h3 : Heap) × (s3 : State) × (load_state p m f2 (save_present p m f now d h repo s).0 h2 repo
        ≡ ok (h3, s3))
      × (dehydrate h3 s3 ≡ dehydrate h (stamp_state now s))
load-save p m f f2 now d h h2 repo s codec readable saved =
    elim (save-atomic p m f now d h repo s) [
      | inl (e, (bytes, encoded, written)) ↦
          let file = dehydrate h (stamp_state now s) in
          (
            (hydrate h2 file).0,
            (hydrate h2 file).1,
            load_of_bytes p m f2 (save_present p m f now d h repo s).0 h2 repo bytes file written
                readable (codec bytes encoded),
            hydrate-stamped now h h2 s,
          )
      | inr (e, kept) ↦ absurd (e saved)
    ]
