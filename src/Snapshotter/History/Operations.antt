-- ===== src/Snapshotter/History/Operations.antt =====
-- The directories of the snapshots behind the operations other than `createSnapshot`.
use sysbox.Prelude.{
  by_error, by_result, ◌≡◌, sym, ap, ◌∙◌, Bool, true, false, not, Option, none, some, List, [], ◌∷◌,
  arith, Result, ok, keep, any,
}
use sysbox.Go.Strings.{Text, contains}
use sysbox.Action.{Action}
use sysbox.Snapshotter.Mount.{Mount}
use sysbox.Snapshotter.Mounts.{Snapshot, Info}
use sysbox.Snapshotter.Hooks.{HandoffStore}
use sysbox.Snapshotter.Store.{
  Storage, Store, Answers, opened, closed, remove_dir, remove_dirs, get_cleanup_directories,
}
use sysbox.Snapshotter.Create.Outcome.{contains_head, metadata-remove_dir}
use sysbox.Snapshotter.Operations.{
  stat, update, usage, mounts_of, commit, remove, cleanup, walk, forget, forget_handoff,
  handoff_keys, removals,
}
use sysbox.Snapshotter.Operations.Orphans.{contains-keep}
use sysbox.Snapshotter.History.{StorageLaws}
use sysbox.Snapshotter.History.Created.{Covers, IsWhole, IsWhole-remove_dir}

module _ {D : Type 0} (storage : Storage D) (owns : D → Text → Bool)
    (laws : StorageLaws storage owns) where
  -- None of the directories is a snapshot's.
  abbrev AreUnowned : D → List Text → Type 0
  AreUnowned m ds = (d : Text) → contains ds d ≡ true → owns m d ≡ false

  -- Directories cover metadata whose snapshots were all there before.
  Covers-fewer :
      (m m' : D) (ds : List Text)
      → ((d : Text) → owns m' d ≡ true → owns m d ≡ true)
      → Covers owns m ds
      → Covers owns m' ds
  Covers-fewer m m' ds f c d o = c d (f d o)

  module _ {W : Type 0} where
    -- The directories that a scan finds have no snapshot.
    get_cleanup_directories-ok :
        (a : Answers) (m : D) (s : Store D W) {ds : List Text}
        → get_cleanup_directories storage a m s ≡ ok ds
        → (ids : List Text) × (storage.id_map m ≡ ok ids)
          × (keep (λ d. not (contains ids d)) s.dirs ≡ ds)
    unfolding get_cleanup_directories
    get_cleanup_directories-ok a m s h = ground arith

    AreUnowned-get_cleanup_directories :
        (a : Answers) (m : D) (s : Store D W) {ds : List Text}
        → get_cleanup_directories storage a m s ≡ ok ds
        → AreUnowned m ds
    AreUnowned-get_cleanup_directories a m s h d c =
        let (ids, listed, kept) = get_cleanup_directories-ok a m s h in
        ground (
          arith,
          contains-keep (λ x. not (contains ids x)) s.dirs d,
          ap (λ xs. contains xs d) kept,
          c,
          laws.lists m d listed,
        )

    IsWhole-remove_dirs :
        (a : Answers) (ds : List Text) (s : Store D W)
        → AreUnowned s.metadata ds
        → IsWhole owns s
        → IsWhole owns (remove_dirs a ds s)
    unfolding remove_dirs contains any
    IsWhole-remove_dirs a [] s f c = c
    IsWhole-remove_dirs a (d ∷ ds) s f c =
        IsWhole-remove_dirs a ds (remove_dir a d s)
          (λ x o. ap (λ m. owns m x) (metadata-remove_dir a d s) ∙ f x (ground (arith, o)))
          (IsWhole-remove_dir owns a d s (f d (contains_head d ds)) c)

    abbrev LeavesWhole : {A : Type 0} → Result A × Store D W → Type 0
    LeavesWhole x = IsWhole owns x.1

    pub IsWhole-cleanup :
        (a : Answers) (s : Store D W) → IsWhole owns s → IsWhole owns (cleanup storage a s).1
    unfolding cleanup closed opened
    IsWhole-cleanup a s c =
        by_error LeavesWhole a.begin _ _
          (λ p.
            by_result LeavesWhole (get_cleanup_directories storage a s.metadata s) _ _
              (λ ds q.
                IsWhole-remove_dirs a ds _ (AreUnowned-get_cleanup_directories a s.metadata s q) c)
              (λ e q. c))
          (λ e p. c)

    pub IsWhole-commit :
        (a : Answers) (name key : Text) (s : Store D W)
        → IsWhole owns s
        → IsWhole owns (commit storage a name key s).1
    unfolding commit closed opened
    IsWhole-commit a name key s c =
        by_error LeavesWhole a.begin _ _
          (λ _.
            by_result LeavesWhole (storage.get_info key s.metadata) _ _
              (λ entry _.
                by_result LeavesWhole a.disk_usage _ _
                  (λ measured _.
                    by_result LeavesWhole (storage.commit_active key name measured s.metadata) _ _
                      (λ m' q.
                        by_error LeavesWhole a.commit _ _
                          (λ _.
                            Covers-fewer s.metadata m' s.dirs
                              (λ d o. sym (laws.commits key name measured s.metadata d q) ∙ o) c)
                          (λ e _. c))
                      (λ e _. c))
                  (λ e _. c))
              (λ e _. c))
          (λ e _. c)

    pub IsWhole-update :
        (a : Answers) (info : Info) (s : Store D W)
        → IsWhole owns s
        → IsWhole owns (update storage a info s).1
    unfolding update closed opened
    IsWhole-update a info s c =
        by_error LeavesWhole a.begin _ _
          (λ _.
            by_result LeavesWhole (storage.update_info info s.metadata) _ _
              (λ (info', m') q.
                by_error LeavesWhole a.commit _ _
                  (λ _.
                    Covers-fewer s.metadata m' s.dirs
                      (λ d o. sym (laws.updates info s.metadata d q) ∙ o) c)
                  (λ e _. c))
              (λ e _. c))
          (λ e _. c)

    pub IsWhole-mounts_of :
        (mounts : Text → Snapshot → Info → Action W (List Mount)) (a : Answers) (key : Text)
        (s : Store D W)
        → IsWhole owns s
        → IsWhole owns (mounts_of storage a mounts key s).1
    unfolding mounts_of closed opened
    IsWhole-mounts_of mounts a key s c =
        by_error LeavesWhole a.begin _ _
          (λ _.
            by_result LeavesWhole (storage.get_snapshot key s.metadata) _ _
              (λ snapshot _.
                by_result LeavesWhole (storage.get_info key s.metadata) _ _ (λ entry _. c)
                  (λ e _. c))
              (λ e _. c))
          (λ e _. c)

    pub IsWhole-stat :
        (a : Answers) (key : Text) (s : Store D W)
        → IsWhole owns s
        → IsWhole owns (stat storage a key s).1
    unfolding stat closed opened
    IsWhole-stat a key s c = by_error LeavesWhole a.begin _ _ (λ _. c) (λ e _. c)

    pub IsWhole-usage :
        (a : Answers) (key : Text) (s : Store D W)
        → IsWhole owns s
        → IsWhole owns (usage storage a key s).1
    unfolding usage closed opened
    IsWhole-usage a key s c = by_error LeavesWhole a.begin _ _ (λ _. c) (λ e _. c)

    AreUnowned-removals :
        (a : Answers) (async_remove : Bool) (m : D) (s : Store D W) {ds : List Text}
        → removals storage a async_remove m s ≡ ok ds
        → AreUnowned m ds
    unfolding removals contains any
    AreUnowned-removals a true m s h d c = absurd (ground arith)
    AreUnowned-removals a false m s h d c = AreUnowned-get_cleanup_directories a m s h d c

    -- The handoffs that are forgotten lie outside of the metadata and the directories.
    by_forgetting :
        (a : Answers) (handoffs : Option (HandoffStore W)) (key : Text) (s : Store D W)
        (P : D → List Text → Type 0)
        → P s.metadata s.dirs
        → P
            (forget_handoff storage a handoffs key s).metadata
            (forget_handoff storage a handoffs key s).dirs
    unfolding forget_handoff forget
    by_forgetting a none key s P p = p
    by_forgetting a (some store) key s P p = go (handoff_keys key) s p
      where
        go :
            (keys : List Text) (t : Store D W)
            → P t.metadata t.dirs
            → P (forget storage a store keys t).metadata (forget storage a store keys t).dirs
        go [] t p = p
        go (k ∷ keys) t p = go keys _ p

    pub IsWhole-remove :
        (a : Answers) (async_remove : Bool) (handoffs : Option (HandoffStore W)) (key : Text)
        (s : Store D W)
        → IsWhole owns s
        → IsWhole owns (remove storage a async_remove handoffs key s).1
    unfolding remove closed opened
    IsWhole-remove a async_remove handoffs key s c =
        by_error LeavesWhole a.begin _ _
          (λ _.
            by_result LeavesWhole (storage.remove key s.metadata) _ _
              (λ m' q.
                by_result LeavesWhole (removals storage a async_remove m' s) _ _
                  (λ ds found.
                    by_error LeavesWhole a.commit _ _
                      (λ _.
                        let left = closed (opened (record s { metadata = m' })) in
                        IsWhole-remove_dirs a ds _
                          (by_forgetting a handoffs key left (λ m xs. AreUnowned m ds)
                            (AreUnowned-removals a async_remove m' s found))
                          (by_forgetting a handoffs key left (Covers owns) (
                            Covers-fewer s.metadata m' s.dirs
                              (λ d o. laws.removes key s.metadata d q o) c)))
                      (λ e _. c))
                  (λ e _. c))
              (λ e _. c))
          (λ e _. c)

    pub IsWhole-walk :
        (a : Answers) (walk_info : D → Result (Unit {0})) (s : Store D W)
        → IsWhole owns s
        → IsWhole owns (walk storage a walk_info s).1
    unfolding walk closed opened
    IsWhole-walk a walk_info s c = by_error LeavesWhole a.begin _ _ (λ _. c) (λ e _. c)
