-- ===== src/Snapshotter/Create/Outcome.antt =====
-- What `createSnapshot` leaves behind, on every path.
use sysbox.Prelude.{
  ◌-◌, ◌≡◌, refl, ◌∙◌, ap, is_ok, true, false, Option, none, some, List, [], ◌∷◌, arith, Result, ok,
  err, Error, any, keep, not,
}
use sysbox.Go.Strings.{Text, text_eq, text_eq_refl, text_eq_sym, contains}
use sysbox.Action.{Action}
use sysbox.Snapshotter.Mount.{Mount}
use sysbox.Snapshotter.Mounts.{Kind, Snapshot, Info}
use sysbox.Snapshotter.Store.{Storage, Store, Answers, opened, closed, remove_dir}
use sysbox.Snapshotter.Create.{
  add_dir, add_made, remove_made, failed_at_path, failed_at_temp, after_mounts, commit_and_mount,
  rename_to_id, own_directory, create_in, after_prepare, prepare_directory, create_snapshot,
  info_of,
}

pub contains_head : (d : Text) (ds : List Text) → contains (d ∷ ds) d ≡ true
unfolding contains any
contains_head d ds = rw (text_eq_refl d)

contains-keep :
    (d : Text) (ds : List Text) → any (text_eq d) (keep (λ x. not (text_eq x d)) ds) ≡ false
unfolding any keep
contains-keep d [] = refl
contains-keep d (x ∷ ds) = ground (arith, contains-keep d ds, text_eq_sym d x)

module _ {D W : Type 0} (a : Answers) where
  open-remove_dir :
      (d : Text) (s : Store D W) → (remove_dir a d s).open_transactions ≡ s.open_transactions
  unfolding remove_dir
  open-remove_dir d s = ground arith

  open-remove_made :
      (made : Option Text) (s : Store D W)
      → (remove_made a made s).open_transactions ≡ s.open_transactions
  unfolding remove_made
  open-remove_made none s = refl
  open-remove_made (some d) s = open-remove_dir d s

  open-add_made :
      (made : Option Text) (s : Store D W)
      → (add_made made s).open_transactions ≡ s.open_transactions
  unfolding add_made add_dir
  open-add_made none s = refl
  open-add_made (some d) s = refl

  contains-remove_dir :
      (d : Text) (s : Store D W)
      → a.remove_all d ≡ none
      → contains (remove_dir a d s).dirs d ≡ false
  unfolding remove_dir contains
  contains-remove_dir d s h = rw (remove_dir, h) (contains-keep d s.dirs)

  pub metadata-remove_dir : (d : Text) (s : Store D W) → (remove_dir a d s).metadata ≡ s.metadata
  unfolding remove_dir
  metadata-remove_dir d s = ground arith

module _ {D W : Type 0} (storage : Storage D)
    (mounts : Text → Snapshot → Info → Action W (List Mount)) (a : Answers) where
  open-after_mounts :
      (path : Text) (r : Result (List Mount)) (s : Store D W)
      → (after_mounts storage mounts a path r s).1.open_transactions ≡ s.open_transactions
  unfolding after_mounts failed_at_path
  open-after_mounts path (ok ms) s = refl
  open-after_mounts path (err e) s = open-remove_dir a path s

  open-commit_and_mount :
      (key : Text) (s : Snapshot) (metadata : D) (st : Store D W)
      → (commit_and_mount storage mounts a key s metadata st).1.open_transactions
        ≡ st.open_transactions - 1
  unfolding commit_and_mount failed_at_path closed
  open-commit_and_mount key s metadata st = grind (arith, open-after_mounts, open-remove_dir)

  open-rename_to_id :
      (key td : Text) (s : Snapshot) (metadata : D) (st : Store D W)
      → (rename_to_id storage mounts a key td s metadata st).1.open_transactions
        ≡ st.open_transactions - 1
  unfolding rename_to_id failed_at_path closed add_dir
  open-rename_to_id key td s metadata st = grind (arith, open-commit_and_mount, open-remove_dir)

  open-own_directory :
      (key td : Text) (s : Snapshot) (metadata : D) (st : Store D W)
      → (own_directory storage mounts a key td s metadata st).1.open_transactions
        ≡ st.open_transactions - 1
  unfolding own_directory failed_at_temp closed
  open-own_directory key td s metadata st = grind (arith, open-rename_to_id, open-remove_dir)

  open-create_in :
      (key td : Text) (r : Result (Snapshot × D)) (st : Store D W)
      → (create_in storage mounts a key td r st).1.open_transactions ≡ st.open_transactions - 1
  unfolding create_in failed_at_temp closed
  open-create_in key td (err e) st = open-remove_dir a td _
  open-create_in key td (ok (s, metadata)) st = open-own_directory key td s metadata st

  open-after_prepare :
      (kind : Kind) (key parent : Text) (made : Option Text × Option Error) (st : Store D W)
      → (after_prepare storage mounts a kind key parent made st).1.open_transactions
        ≡ st.open_transactions - 1
  unfolding after_prepare closed add_dir
  open-after_prepare kind key parent (made, some e) st =
      ground (arith, open-remove_made a made (closed (add_made made st)), open-add_made a made st)
  open-after_prepare kind key parent (none, none) st = open-create_in key [] _ st
  open-after_prepare kind key parent (some td, none) st = open-create_in key td _ _

  -- Whatever fails, the transaction of the call is ended.
  pub open-create_snapshot :
      (kind : Kind) (key parent : Text) (s : Store D W)
      → (create_snapshot storage mounts a kind key parent s).1.open_transactions
        ≡ s.open_transactions
  unfolding create_snapshot opened
  open-create_snapshot kind key parent s = grind (arith, open-after_prepare)

  -- The steps up to the commit, all of which succeed.
  pub record Commits (kind : Kind) (key parent td : Text) (s : Snapshot) (metadata : D)
      (st : Store D W) : Type 0 where
    pub begins : a.begin ≡ none
    pub temp : a.temp_dir ≡ ok td
    pub made_fs : a.mkdir_fs ≡ none
    pub made_work : a.mkdir_work ≡ none
    pub created : storage.create_snapshot kind key parent st.metadata ≡ ok (s, metadata)
    pub found_parent : a.stat_parent ≡ none
    pub owned : a.chown ≡ none
    pub renamed : a.rename ≡ none
    pub commits : a.commit ≡ none

  module _ {kind : Kind} {key parent td : Text} {s : Snapshot} {metadata : D} {st : Store D W}
      (c : Commits kind key parent td s metadata st) where
    -- The state behind the commit, and what making the mounts gives from there.
    committed_state : Store D W
    unfolding closed add_dir opened
    committed_state =
        closed
          (record (add_dir s.id (record (add_dir td (opened st)) {
            dirs = keep (λ x. not (text_eq x td)) (td ∷ st.dirs);
          })) { metadata = metadata })

    abbrev pub mounted : Result (List Mount) × W
    mounted = mounts key s (info_of (storage.get_info key metadata)) st.world

    prepare_directory-made : prepare_directory a kind ≡ (some td, none)
    unfolding prepare_directory
    prepare_directory-made = ground (arith, c.temp, c.made_fs, c.made_work)

    own_directory-eq :
        (st' : Store D W)
        → own_directory storage mounts a key td s metadata st'
          ≡ rename_to_id storage mounts a key td s metadata st'
    unfolding own_directory
    own_directory-eq st' = ground (arith, c.found_parent, c.owned)

    create_snapshot-begins :
        create_snapshot storage mounts a kind key parent st
        ≡ after_prepare storage mounts a kind key parent (prepare_directory a kind) (opened st)
    unfolding create_snapshot
    create_snapshot-begins = ground (arith, c.begins)

    after_prepare-creates :
        after_prepare storage mounts a kind key parent (some td, none) (opened st)
        ≡ own_directory storage mounts a key td s metadata (add_dir td (opened st))
    unfolding after_prepare create_in opened
    after_prepare-creates =
        ap (λ r. create_in storage mounts a key td r (add_dir td (opened st))) c.created

    rename_to_id-renames :
        (st' : Store D W)
        → rename_to_id storage mounts a key td s metadata st'
          ≡ commit_and_mount storage mounts a key s metadata
              (add_dir s.id (record st' { dirs = keep (λ x. not (text_eq x td)) st'.dirs }))
    unfolding rename_to_id
    rename_to_id-renames st' = ground (arith, c.renamed)

    commit_and_mount-commits :
        (st' : Store D W)
        → let done = closed (record st' { metadata = metadata }) in
          let (r, w) = mounts key s (info_of (storage.get_info key metadata)) st'.world in
          commit_and_mount storage mounts a key s metadata st'
          ≡ after_mounts storage mounts a s.id r (record done { world = w })
    unfolding commit_and_mount closed
    commit_and_mount-commits st' = ground (arith, c.commits)

    create_snapshot-commits :
        create_snapshot storage mounts a kind key parent st
        ≡ after_mounts storage mounts a s.id mounted.0
            (record committed_state { world = mounted.1 })
    unfolding committed_state
    create_snapshot-commits =
        create_snapshot-begins
        ∙ ap (λ made. after_prepare storage mounts a kind key parent made (opened st))
            prepare_directory-made
        ∙ after_prepare-creates
        ∙ own_directory-eq (add_dir td (opened st))
        ∙ rename_to_id-renames (add_dir td (opened st))
        ∙ commit_and_mount-commits _

    -- Where the snapshot is made and its mounts fail, the call fails, and the metadata keeps the
    -- snapshot whose directory is removed.
    pub create_snapshot-loses_directory :
        {e : Error}
        → mounted.0 ≡ err e
        → a.remove_all s.id ≡ none
        → (is_ok (create_snapshot storage mounts a kind key parent st).0 ≡ false)
          × ((create_snapshot storage mounts a kind key parent st).1.metadata ≡ metadata)
          × (contains (create_snapshot storage mounts a kind key parent st).1.dirs s.id ≡ false)
    create_snapshot-loses_directory h k =
        rw (create_snapshot-commits, h)
          (unfold after_mounts failed_at_path committed_state in
            (
              refl,
              metadata-remove_dir a s.id (record committed_state { world = mounted.1 }),
              contains-remove_dir a s.id (record committed_state { world = mounted.1 }) k,
            ))
