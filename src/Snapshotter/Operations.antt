-- ===== src/Snapshotter/Operations.antt =====
-- sysbox-snapshotter/fuseoverlayfs.go: the other operations of the snapshotter.
pub mod Transactions
pub mod Orphans
use sysbox.Prelude.{
  ℕ, Bool, true, false, Option, none, some, List, [], ◌∷◌, if◌then◌else◌, Result, ok, err, wrap,
  Error,
}
use sysbox.Go.Strings.{Text, text_eq}
use sysbox.Go.Filepath.{base}
use sysbox.Action.{Action}
use sysbox.Snapshotter.Mount.{Mount}
use sysbox.Snapshotter.Hooks.{HandoffStore}
use sysbox.Snapshotter.Mounts.{Snapshot, Info, is_active}
use sysbox.Snapshotter.Store.{
  Storage, Store, Answers, Entry, Usage, opened, closed, remove_dirs, get_cleanup_directories,
}

unfoldable pub handoff_keys : Text → List Text
handoff_keys key = if text_eq (base key) key then key ∷ [] else key ∷ base key ∷ []

module _ {D W : Type 0} (storage : Storage D) (a : Answers) where
  -- A read in a transaction of its own, which is rolled back.
  unfoldable pub stat : Text → Store D W → Result Info × Store D W
  stat key s = elim a.begin [
    | some e ↦ (err e, s)
    | none ↦ (
      elim (storage.get_info key s.metadata) [ ok entry ↦ ok entry.info | err e ↦ err e ],
      closed (opened s),
    )
  ]

  unfoldable pub update : Info → Store D W → Result Info × Store D W
  update info s = elim a.begin [
    | some e ↦ (err e, s)
    | none ↦ elim (storage.update_info info s.metadata) [
      | err e ↦ (err e, closed (opened s))
      | ok (info', metadata) ↦ elim a.commit [
        | some e ↦ (err e, closed (opened s))
        | none ↦ (ok info', closed (opened (record s { metadata = metadata })))
      ]
    ]
  ]

  -- An active snapshot is measured; for another one the stored usage counts.
  unfoldable pub usage : Text → Store D W → Result Usage × Store D W
  usage key s = elim a.begin [
    | some e ↦ (err e, s)
    | none ↦ (
      elim (storage.get_info key s.metadata) [
        | err e ↦ err e
        | ok entry ↦ (if is_active entry.info.kind then a.disk_usage else ok entry.usage)
      ],
      closed (opened s),
    )
  ]

  -- The transaction is not rolled back where the snapshot is not found.
  unfoldable pub mounts_of :
      (Text → Snapshot → Info → Action W (List Mount))
      → Text
      → Store D W
      → Result (List Mount) × Store D W
  mounts_of mounts key s = elim a.begin [
    | some e ↦ (err e, s)
    | none ↦ elim (storage.get_snapshot key s.metadata) [
      | err e ↦ (err e, opened s)
      | ok snapshot ↦ elim (storage.get_info key s.metadata) [
        | err e ↦ (err (wrap "failed to get active mount" e), closed (opened s))
        | ok entry ↦
            let (r, w) = mounts key snapshot entry.info s.world in
            (r, record (closed (opened s)) { world = w })
      ]
    ]
  ]

  unfoldable pub commit : Text → Text → Store D W → Result (Unit {0}) × Store D W
  commit name key s = elim a.begin [
    | some e ↦ (err e, s)
    | none ↦ elim (storage.get_info key s.metadata) [
      | err e ↦ (err e, closed (opened s))
      | ok entry ↦ elim a.disk_usage [
        | err e ↦ (err e, closed (opened s))
        | ok measured ↦ elim (storage.commit_active key name measured s.metadata) [
          | err e ↦ (err (wrap "failed to commit snapshot" e), closed (opened s))
          | ok metadata ↦ elim a.commit [
            | some e ↦ (err e, closed (opened s))
            | none ↦ (ok tt, closed (opened (record s { metadata = metadata })))
          ]
        ]
      ]
    ]
  ]

  -- The handoff of the key, and of its last element where that is another text; errors are logged.
  unfoldable pub forget : HandoffStore W → List Text → Store D W → Store D W
  forget store [] s = s
  forget store (key ∷ keys) s =
      let (_, w) = store.remove key s.world in forget store keys (record s { world = w })

  unfoldable pub forget_handoff : Option (HandoffStore W) → Text → Store D W → Store D W
  unfolding forget handoff_keys
  forget_handoff none key s = s
  forget_handoff (some store) key s = forget store (handoff_keys key) s

  -- The directories to remove, unless removal waits for `Cleanup`.
  unfoldable pub removals : Bool → D → Store D W → Result (List Text)
  removals true metadata s = ok []
  removals false metadata s = get_cleanup_directories storage a metadata s

  unfoldable pub remove :
      Bool → Option (HandoffStore W) → Text → Store D W → Result (Unit {0}) × Store D W
  unfolding removals forget_handoff
  remove async_remove store key s = elim a.begin [
    | some e ↦ (err e, s)
    | none ↦ elim (storage.remove key s.metadata) [
      | err e ↦ (err (wrap "failed to remove" e), closed (opened s))
      | ok metadata ↦ elim (removals async_remove metadata s) [
        | err e ↦ (err (wrap "unable to get directories for removal" e), closed (opened s))
        | ok ds ↦ elim a.commit [
          | some e ↦ (err e, closed (opened s))
          | none ↦ (
            ok tt,
            remove_dirs a ds
                (forget_handoff store key (closed (opened (record s { metadata = metadata })))),
          )
        ]
      ]
    ]
  ]

  unfoldable pub cleanup : Store D W → Result (Unit {0}) × Store D W
  cleanup s = elim a.begin [
    | some e ↦ (err e, s)
    | none ↦ elim (get_cleanup_directories storage a s.metadata s) [
      | err e ↦ (err e, closed (opened s))
      | ok ds ↦ (ok tt, remove_dirs a ds (closed (opened s)))
    ]
  ]

  -- `walk_info` is `storage.WalkInfo` with the function and the filters of the caller.
  unfoldable pub walk : (D → Result (Unit {0})) → Store D W → Result (Unit {0}) × Store D W
  walk walk_info s = elim a.begin [
    | some e ↦ (err e, s)
    | none ↦ (walk_info s.metadata, closed (opened s))
  ]
