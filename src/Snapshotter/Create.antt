-- ===== src/Snapshotter/Create.antt =====
-- sysbox-snapshotter/fuseoverlayfs.go: `createSnapshot`, behind `Prepare` and `View`.
pub mod Outcome
use sysbox.Prelude.{
  ℕ, Bool, true, false, Option, none, some, List, [], ◌∷◌, ◌++◌, if◌then◌else◌, Result, ok, err,
  wrap, Error, keep, not,
}
use sysbox.Go.Strings.{Text, text_eq}
use sysbox.Action.{Action}
use sysbox.Snapshotter.Mount.{Mount}
use sysbox.Snapshotter.Mounts.{Kind, Snapshot, Info, active, view, committed, is_active}
use sysbox.Snapshotter.Store.{Storage, Store, Answers, Entry, opened, closed, remove_dir}

-- The temporary directory, if one was made, with the error.
unfoldable pub prepare_directory : Answers → Kind → Option Text × Option Error
prepare_directory a kind = elim a.temp_dir [
  | err e ↦ (none, some (wrap "failed to create temp dir" e))
  | ok td ↦ elim a.mkdir_fs [
    | some e ↦ (some td, some e)
    | none ↦ (if is_active kind then (some td, a.mkdir_work) else (some td, none))
  ]
]

abbrev pub zero_info : Info
zero_info = record { kind = committed; labels = [] }

-- `_, info, _, err := storage.GetInfo(…)`: the error is written over before it is read. Of the info,
-- only the labels are read.
unfoldable pub info_of : Result Entry → Info
info_of (ok entry) = entry.info
info_of (err e) = zero_info

-- The removal of the final directory puts its own error in front.
path_error : Option Error → Error → Error
path_error none e = e
path_error (some e1) e = wrap "failed to remove path" e

module _ {D W : Type 0} where
  unfoldable pub add_dir : Text → Store D W → Store D W
  add_dir d s = record s { dirs = d ∷ s.dirs }

  unfoldable pub add_made : Option Text → Store D W → Store D W
  add_made none s = s
  add_made (some td) s = add_dir td s

  -- The first deferred call, on an error: what was made is removed.
  unfoldable pub remove_made : Answers → Option Text → Store D W → Store D W
  remove_made a none s = s
  remove_made a (some td) s = remove_dir a td s

  unfoldable pub failed_at_path :
      Answers → Text → Error → Store D W → Result (List Mount) × Store D W
  unfolding path_error
  failed_at_path a path e s = (err (path_error (a.remove_all path) e), remove_dir a path s)

  module _ (storage : Storage D) (mounts : Text → Snapshot → Info → Action W (List Mount))
      (a : Answers) where
    unfoldable pub after_mounts :
        Text → Result (List Mount) → Store D W → Result (List Mount) × Store D W
    after_mounts path (ok ms) s = (ok ms, s)
    after_mounts path (err e) s = failed_at_path a path e s

    -- Behind the renaming: the transaction is committed, and then the mounts are made.
    unfoldable pub commit_and_mount :
        Text → Snapshot → D → Store D W → Result (List Mount) × Store D W
    commit_and_mount key s metadata st = elim a.commit [
      | some e ↦ failed_at_path a s.id (wrap "commit failed" e) (closed st)
      | none ↦
          let done = closed (record st { metadata = metadata }) in
          let (r, w) = mounts key s (info_of (storage.get_info key metadata)) done.world in
          after_mounts s.id r (record done { world = w })
    ]

    unfoldable pub rename_to_id :
        Text → Text → Snapshot → D → Store D W → Result (List Mount) × Store D W
    rename_to_id key td s metadata st = elim a.rename [
      | some e ↦ failed_at_path a s.id (wrap "failed to rename" e) (remove_dir a td (closed st))
      | none ↦
          commit_and_mount key s metadata
            (add_dir s.id (record st { dirs = keep (λ x. not (text_eq x td)) st.dirs }))
    ]

    -- A failure before the final directory has its name.
    unfoldable pub failed_at_temp : Text → Error → Store D W → Result (List Mount) × Store D W
    failed_at_temp td e st = (err e, remove_dir a td (closed st))

    -- With a parent, the new directory takes the owner of the parent's.
    unfoldable pub own_directory :
        Text → Text → Snapshot → D → Store D W → Result (List Mount) × Store D W
    own_directory key td s metadata st = elim s.parent_ids [
      | [] ↦ rename_to_id key td s metadata st
      | p ∷ ps ↦ elim a.stat_parent [
        | some e ↦ failed_at_temp td (wrap "failed to stat parent" e) st
        | none ↦ elim a.chown [
          | some e ↦ failed_at_temp td (wrap "failed to chown" e) st
          | none ↦ rename_to_id key td s metadata st
        ]
      ]
    ]

    unfoldable pub create_in :
        Text → Text → Result (Snapshot × D) → Store D W → Result (List Mount) × Store D W
    create_in key td (err e) st = failed_at_temp td (wrap "failed to create snapshot" e) st
    create_in key td (ok (s, metadata)) st = own_directory key td s metadata st

    unfoldable pub after_prepare :
        Kind
        → Text
        → Text
        → Option Text × Option Error
        → Store D W
        → Result (List Mount) × Store D W
    after_prepare kind key parent (made, some e) st = (
      err (wrap "failed to create prepare snapshot dir" e),
      remove_made a made (closed (add_made made st)),
    )
    after_prepare kind key parent (none, none) st =
        create_in key [] (storage.create_snapshot kind key parent st.metadata) st
    after_prepare kind key parent (some td, none) st =
        create_in key td (storage.create_snapshot kind key parent st.metadata) (add_dir td st)

    unfoldable pub create_snapshot :
        Kind → Text → Text → Store D W → Result (List Mount) × Store D W
    unfolding prepare_directory
    create_snapshot kind key parent st = elim a.begin [
      | some e ↦ (err e, st)
      | none ↦ after_prepare kind key parent (prepare_directory a kind) (opened st)
    ]

    unfoldable pub prepare : Text → Text → Store D W → Result (List Mount) × Store D W
    prepare = create_snapshot active

    unfoldable pub view_snapshot : Text → Text → Store D W → Result (List Mount) × Store D W
    view_snapshot = create_snapshot view
