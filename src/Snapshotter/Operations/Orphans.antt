-- ===== src/Snapshotter/Operations/Orphans.antt =====
-- The directories that belong to no snapshot go away.
use sysbox.Prelude.{
  ◌≡◌, refl, ap, ◌∙◌, Bool, false, not, Option, none, some, List, [], ◌∷◌, arith, any, keep, ◌&&◌,
  ◌||◌, Bool-cases, inl, inr, ok,
}
use sysbox.Go.Strings.{Text, text_eq, text_eq_iff, text_eq_sym, text_eq_refl, contains}
use sysbox.Snapshotter.Store.{
  Storage, Store, Answers, opened, closed, remove_dir, remove_dirs, get_cleanup_directories,
}
use sysbox.Snapshotter.Operations.{cleanup, remove, forget, forget_handoff, handoff_keys}
use sysbox.Snapshotter.Hooks.{HandoffStore}

pub contains-keep :
    (q : Text → Bool) (ds : List Text) (d : Text) → contains (keep q ds) d ≡ (contains ds d && q d)
unfolding contains keep any
contains-keep q [] d = refl
contains-keep q (x ∷ ds) d = elim (Bool-cases (text_eq d x)) [
  | inl e ↦ rw ((text_eq_iff d x).0 e) (ground (arith, contains-keep q ds x, text_eq_refl x))
  | inr n ↦ ground (arith, contains-keep q ds d)
]

-- What stays of a list of directories behind the removal of others.
stays : List Text → List Text → List Text
stays [] ds = ds
stays (r ∷ rs) ds = stays rs (keep (λ x. not (text_eq x r)) ds)

contains-stays :
    (rs ds : List Text) (d : Text)
    → contains (stays rs ds) d ≡ (contains ds d && not (contains rs d))
unfolding stays
contains-stays [] ds d = unfold contains any in ground arith
contains-stays (r ∷ rs) ds d =
    contains-stays rs (keep (λ x. not (text_eq x r)) ds) d
    ∙ rw (contains-keep (λ x. not (text_eq x r)) ds d, contains_cons r rs d, text_eq_sym d r)
        (de_morgan (contains ds d) (text_eq r d) (contains rs d))
  where
    contains_cons :
        (x : Text) (xs : List Text) (y : Text)
        → contains (x ∷ xs) y ≡ (text_eq y x || contains xs y)
    contains_cons x xs y = unfold contains any in refl

    de_morgan : (a b c : Bool) → ((a && not b) && not c) ≡ (a && not (b || c))
    de_morgan a b c = ground arith

module _ {D W : Type 0} (a : Answers) (removes : (d : Text) → a.remove_all d ≡ none) where
  dirs-remove_dir :
      (d : Text) (s : Store D W) → (remove_dir a d s).dirs ≡ keep (λ x. not (text_eq x d)) s.dirs
  unfolding remove_dir
  dirs-remove_dir d s = ground (arith, removes d)

  dirs-remove_dirs : (rs : List Text) (s : Store D W) → (remove_dirs a rs s).dirs ≡ stays rs s.dirs
  unfolding remove_dirs stays
  dirs-remove_dirs [] s = refl
  dirs-remove_dirs (r ∷ rs) s =
      dirs-remove_dirs rs (remove_dir a r s) ∙ ap (stays rs) (dirs-remove_dir r s)

  -- Removing what a scan finds leaves the directories of the snapshots.
  contains-remove_orphans :
      (storage : Storage D) (metadata : D) (s s' : Store D W) (ids rs : List Text) (d : Text)
      → s'.dirs ≡ s.dirs
      → storage.id_map metadata ≡ ok ids
      → get_cleanup_directories storage a metadata s ≡ ok rs
      → contains (remove_dirs a rs s').dirs d ≡ (contains s.dirs d && contains ids d)
  contains-remove_orphans storage metadata s s' ids rs d same e h =
      rw (dirs-remove_dirs rs s', same, ← found, contains-stays, contains-keep)
        (absorb (contains s.dirs d) (contains ids d))
    where
      found : keep (λ x. not (contains ids x)) s.dirs ≡ rs
      found = unfold get_cleanup_directories in ground (arith, e)

      absorb : (b c : Bool) → (b && not (b && not c)) ≡ (b && c)
      absorb b c = ground arith

  cleanup-ok :
      (storage : Storage D) (s : Store D W)
      → (cleanup storage a s).0 ≡ ok tt
      → (rs : List Text) × (get_cleanup_directories storage a s.metadata s ≡ ok rs)
        × ((cleanup storage a s).1 ≡ remove_dirs a rs (closed (opened s)))
  unfolding cleanup
  cleanup-ok storage s h = ground arith

  -- If every removal works, a `Cleanup` that succeeds leaves, of the directories that were there,
  -- exactly those that the metadata has a snapshot for.
  pub contains-cleanup :
      (storage : Storage D) (s : Store D W) (ids : List Text) (d : Text)
      → storage.id_map s.metadata ≡ ok ids
      → (cleanup storage a s).0 ≡ ok tt
      → contains (cleanup storage a s).1.dirs d ≡ (contains s.dirs d && contains ids d)
  contains-cleanup storage s ids d e h =
      let (rs, found, left) = cleanup-ok storage s h in
      rw left (
        contains-remove_orphans storage s.metadata s (closed (opened s)) ids rs d
          (unfold closed opened in refl) e found)

  dirs-forget_handoff :
      (storage : Storage D) (store : Option (HandoffStore W)) (key : Text) (s : Store D W)
      → (forget_handoff storage a store key s).dirs ≡ s.dirs
  unfolding forget_handoff forget
  dirs-forget_handoff storage none key s = refl
  dirs-forget_handoff storage (some store) key s = dirs-forget (handoff_keys key) s
    where
      dirs-forget :
          (keys : List Text) (t : Store D W) → (forget storage a store keys t).dirs ≡ t.dirs
      dirs-forget [] t = refl
      dirs-forget (k ∷ keys) t = dirs-forget keys _

  remove-ok :
      (storage : Storage D) (store : Option (HandoffStore W)) (key : Text) (s : Store D W)
      (metadata : D)
      → storage.remove key s.metadata ≡ ok metadata
      → (remove storage a false store key s).0 ≡ ok tt
      → (rs : List Text) × (get_cleanup_directories storage a metadata s ≡ ok rs)
        × ((remove storage a false store key s).1
            ≡ remove_dirs a rs (
                forget_handoff storage a store key
                  (closed (opened (record s { metadata = metadata })))))
  unfolding remove
  remove-ok storage store key s metadata m h = ground arith

  metadata-remove_dirs :
      (rs : List Text) (s : Store D W) → (remove_dirs a rs s).metadata ≡ s.metadata
  unfolding remove_dirs remove_dir
  metadata-remove_dirs [] s = refl
  metadata-remove_dirs (r ∷ rs) s = ground (arith, metadata-remove_dirs rs (remove_dir a r s))

  metadata-forget_handoff :
      (storage : Storage D) (store : Option (HandoffStore W)) (key : Text) (s : Store D W)
      → (forget_handoff storage a store key s).metadata ≡ s.metadata
  unfolding forget_handoff forget
  metadata-forget_handoff storage none key s = refl
  metadata-forget_handoff storage (some store) key s = metadata-forget (handoff_keys key) s
    where
      metadata-forget :
          (keys : List Text) (t : Store D W) → (forget storage a store keys t).metadata ≡ t.metadata
      metadata-forget [] t = refl
      metadata-forget (k ∷ keys) t = metadata-forget keys _

  -- If every removal works, a synchronous `Remove` that succeeds leaves, of the directories that
  -- were there, exactly those that the metadata without the removed snapshot has a snapshot for, and
  -- puts that metadata in place.
  pub contains-remove :
      (storage : Storage D) (store : Option (HandoffStore W)) (key : Text) (s : Store D W)
      (metadata : D) (ids : List Text) (d : Text)
      → storage.remove key s.metadata ≡ ok metadata
      → storage.id_map metadata ≡ ok ids
      → (remove storage a false store key s).0 ≡ ok tt
      → ((remove storage a false store key s).1.metadata ≡ metadata)
        × (contains (remove storage a false store key s).1.dirs d
            ≡ (contains s.dirs d && contains ids d))
  contains-remove storage store key s metadata ids d m e h =
      let (rs, found, left) = remove-ok storage store key s metadata m h in
      let begun = closed (opened (record s { metadata = metadata })) in
      rw left (
        metadata-remove_dirs rs _
            ∙ metadata-forget_handoff storage store key begun
            ∙ unfold closed opened in refl,
        contains-remove_orphans storage metadata s (forget_handoff storage a store key begun) ids rs
            d (dirs-forget_handoff storage store key begun ∙ unfold closed opened in refl) e found,
      )
