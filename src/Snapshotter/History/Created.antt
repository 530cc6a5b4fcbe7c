-- ===== src/Snapshotter/History/Created.antt =====
-- The directories of the snapshots behind `createSnapshot`.
use sysbox.Prelude.{
  by_error, by_test, ◌≡◌, refl, ap, ◌∙◌, Bool, true, false, not, Bool-cases, inl, inr, Option, none,
  some, List, [], ◌∷◌, arith, Result, ok, err, Error, any, keep, is_ok, wrap, if◌then◌else◌,
}
use sysbox.Go.Strings.{Text, text_eq, text_eq_iff, contains}
use sysbox.Action.{Action}
use sysbox.Snapshotter.Mount.{Mount}
use sysbox.Snapshotter.Mounts.{Kind, Snapshot, Info, is_active}
use sysbox.Snapshotter.Store.{Storage, Store, Answers, opened, closed, remove_dir}
use sysbox.Snapshotter.Create.{
  add_dir, add_made, remove_made, failed_at_path, failed_at_temp, after_mounts, commit_and_mount,
  rename_to_id, own_directory, create_in, after_prepare, prepare_directory, create_snapshot,
}
use sysbox.Snapshotter.Create.Outcome.{contains_head, metadata-remove_dir}
use sysbox.Snapshotter.Operations.Orphans.{contains-keep}
use sysbox.Snapshotter.History.{StorageLaws, IsNamed}

module _ {D : Type 0} (owns : D → Text → Bool) where
  -- Every snapshot of the metadata has its directory.
  abbrev pub Covers : D → List Text → Type 0
  Covers m ds = (d : Text) → owns m d ≡ true → contains ds d ≡ true

  abbrev pub IsWhole : {W : Type 0} → Store D W → Type 0
  IsWhole s = Covers s.metadata s.dirs

  pub Covers-cons : (m : D) (ds : List Text) (x : Text) → Covers m ds → Covers m (x ∷ ds)
  unfolding contains any
  Covers-cons m ds x c d h = ground (arith, c d h)

  pub Covers-keep :
      (m : D) (ds : List Text) (x : Text)
      → owns m x ≡ false
      → Covers m ds
      → Covers m (keep (λ y. not (text_eq y x)) ds)
  Covers-keep m ds x f c d h = contains-keep (λ y. not (text_eq y x)) ds d ∙ rw (c d h, other) refl
    where
      other : text_eq d x ≡ false
      other = elim (Bool-cases (text_eq d x)) [
        | inl y ↦ absurd (ground (arith, f, ap (owns m) ((text_eq_iff d x).0 y), h))
        | inr n ↦ n
      ]

  module _ {W : Type 0} (a : Answers) where
    pub IsWhole-remove_dir :
        (x : Text) (s : Store D W)
        → owns s.metadata x ≡ false
        → IsWhole s
        → IsWhole (remove_dir a x s)
    unfolding remove_dir
    IsWhole-remove_dir x s f c =
        by_error IsWhole (a.remove_all x) _ _ (λ p. Covers-keep s.metadata s.dirs x f c) (λ e p. c)

    module _ (storage : Storage D) (laws : StorageLaws storage owns)
        (mounts : Text → Snapshot → Info → Action W (List Mount))
        (mounted : (key : Text) (s : Snapshot) (info : Info) (w : W)
          → is_ok (mounts key s info w).0 ≡ true)
        (named : IsNamed a) where
      temporary : (td : Text) (m : D) → a.temp_dir ≡ ok td → owns m td ≡ false
      temporary td m t = laws.numerals m td (named td t)

      IsWhole-failed_at_path :
          (path : Text) (e : Error) (s : Store D W)
          → owns s.metadata path ≡ false
          → IsWhole s
          → IsWhole (failed_at_path a path e s).1
      unfolding failed_at_path
      IsWhole-failed_at_path path e s f c = IsWhole-remove_dir path s f c

      IsWhole-after_mounts :
          (path : Text) (r : Result (List Mount)) (s : Store D W)
          → is_ok r ≡ true
          → IsWhole s
          → IsWhole (after_mounts storage mounts a path r s).1
      unfolding after_mounts
      IsWhole-after_mounts path (ok ms) s h c = c
      IsWhole-after_mounts path (err e) s h c = absurd (ground arith)

      module _ {kind : Kind} {key parent : Text} {m m' : D} {s : Snapshot}
          (created : storage.create_snapshot kind key parent m ≡ ok (s, m')) where
        fresh : owns m s.id ≡ false
        fresh = laws.fresh kind key parent m created

        -- The directory of the new snapshot is there, and those of the others.
        Covers-created : (ds : List Text) → contains ds s.id ≡ true → Covers m ds → Covers m' ds
        Covers-created ds h c d o = elim (Bool-cases (text_eq d s.id)) [
          | inl y ↦ rw ((text_eq_iff d s.id).0 y) h
          | inr n ↦ c d (ground (arith, n, o, laws.creates kind key parent m d created))
        ]

        IsWhole-commit_and_mount :
            (st : Store D W)
            → st.metadata ≡ m
            → contains st.dirs s.id ≡ true
            → IsWhole st
            → IsWhole (commit_and_mount storage mounts a key s m' st).1
        unfolding commit_and_mount closed
        IsWhole-commit_and_mount st e h c =
            by_error (λ (x : Result (List Mount) × Store D W). IsWhole x.1) a.commit _ _
              (λ p.
                IsWhole-after_mounts s.id _ _ (mounted key s _ _)
                  (Covers-created st.dirs h (rw (← e) c)))
              (λ e' p. IsWhole-failed_at_path s.id _ (closed st) (rw e fresh) c)

        IsWhole-rename_to_id :
            (td : Text) (st : Store D W)
            → st.metadata ≡ m
            → a.temp_dir ≡ ok td
            → IsWhole st
            → IsWhole (rename_to_id storage mounts a key td s m' st).1
        unfolding rename_to_id closed add_dir
        IsWhole-rename_to_id td st e t c =
            by_error (λ (x : Result (List Mount) × Store D W). IsWhole x.1) a.rename _ _
              (λ p. IsWhole-commit_and_mount _ e (contains_head s.id _) (
                Covers-cons st.metadata _ s.id
                  (Covers-keep st.metadata st.dirs td (temporary td st.metadata t) c)))
              (λ e' p.
                IsWhole-failed_at_path s.id _ (remove_dir a td (closed st))
                  (ap (λ x. owns x s.id) (metadata-remove_dir a td (closed st) ∙ e) ∙ fresh)
                  (IsWhole-remove_dir td (closed st) (temporary td st.metadata t) c))

        IsWhole-own_directory :
            (td : Text) (st : Store D W)
            → st.metadata ≡ m
            → a.temp_dir ≡ ok td
            → IsWhole st
            → IsWhole (own_directory storage mounts a key td s m' st).1
        unfolding own_directory failed_at_temp closed
        IsWhole-own_directory td st e t c = by_parents s.parent_ids
          where
            removed : IsWhole (remove_dir a td (closed st))
            removed = IsWhole-remove_dir td (closed st) (temporary td st.metadata t) c

            renamed : IsWhole (rename_to_id storage mounts a key td s m' st).1
            renamed = IsWhole-rename_to_id td st e t c

            P : Result (List Mount) × Store D W → Type 0
            P x = IsWhole x.1

            by_parents :
                (ps : List Text)
                → P (elim ps [
                  | [] ↦ rename_to_id storage mounts a key td s m' st
                  | q ∷ qs ↦ elim a.stat_parent [
                    | some e ↦
                        failed_at_temp storage mounts a td (wrap "failed to stat parent" e) st
                    | none ↦ elim a.chown [
                      | some e ↦ failed_at_temp storage mounts a td (wrap "failed to chown" e) st
                      | none ↦ rename_to_id storage mounts a key td s m' st
                    ]
                  ]
                ])
            by_parents [] = renamed
            by_parents (p ∷ ps) =
                by_error P a.stat_parent _ _
                  (λ p. by_error P a.chown _ _ (λ p'. renamed) (λ e' p'. removed)) (λ e' p. removed)

      IsWhole-create_in :
          (kind : Kind) (key parent td : Text) (st : Store D W)
          → a.temp_dir ≡ ok td
          → IsWhole st
          → IsWhole
              (create_in storage mounts a key td
                (storage.create_snapshot kind key parent st.metadata)
                st).1
      unfolding create_in failed_at_temp closed
      IsWhole-create_in kind key parent td st t c =
          go (storage.create_snapshot kind key parent st.metadata) refl
        where
          go :
              (r : Result (Snapshot × D))
              → storage.create_snapshot kind key parent st.metadata ≡ r
              → IsWhole (create_in storage mounts a key td r st).1
          go (err e) q = IsWhole-remove_dir td (closed st) (temporary td st.metadata t) c
          go (ok (s, m')) q =
              IsWhole-own_directory {kind = kind} {key = key} {parent = parent} {m = st.metadata} q
                td st refl t c

      -- What a preparation gives: an error alone, or the temporary directory.
      by_preparation :
          (kind : Kind) (P : Option Text × Option Error → Type 0)
          → ((e : Error) → P (none, some e))
          → ((td : Text) (o : Option Error) → a.temp_dir ≡ ok td → P (some td, o))
          → P (prepare_directory a kind)
      unfolding prepare_directory
      by_preparation kind P p q = go a.temp_dir refl
        where
          go :
              (r : Result Text)
              → a.temp_dir ≡ r
              → P (elim r [
                | err e ↦ (none, some (wrap "failed to create temp dir" e))
                | ok td ↦ elim a.mkdir_fs [
                  | some e ↦ (some td, some e)
                  | none ↦ (if is_active kind then (some td, a.mkdir_work) else (some td, none))
                ]
              ])
          go (err e) h = p _
          go (ok td) h =
              by_error P a.mkdir_fs _ _
                (λ _. by_test P (is_active kind) (λ _. q td a.mkdir_work h) (λ _. q td none h))
                (λ e _. q td (some e) h)

      IsWhole-after_prepare :
          (kind : Kind) (key parent : Text) (st : Store D W)
          → IsWhole st
          → IsWhole (after_prepare storage mounts a kind key parent (prepare_directory a kind) st).1
      unfolding after_prepare closed add_made remove_made add_dir
      IsWhole-after_prepare kind key parent st c =
          by_preparation kind
            (λ made. IsWhole (after_prepare storage mounts a kind key parent made st).1) (λ e. c)
            (λ td o t. go td t o)
        where
          go :
              (td : Text)
              → a.temp_dir ≡ ok td
              → (o : Option Error)
              → IsWhole (after_prepare storage mounts a kind key parent (some td, o) st).1
          go td t none =
              IsWhole-create_in kind key parent td (add_dir td st) t
                (Covers-cons st.metadata st.dirs td c)
          go td t (some e) =
              IsWhole-remove_dir td (closed (add_dir td st)) (temporary td st.metadata t)
                (Covers-cons st.metadata st.dirs td c)

      pub IsWhole-create_snapshot :
          (kind : Kind) (key parent : Text) (st : Store D W)
          → IsWhole st
          → IsWhole (create_snapshot storage mounts a kind key parent st).1
      unfolding create_snapshot opened
      IsWhole-create_snapshot kind key parent st c =
          by_error (λ (x : Result (List Mount) × Store D W). IsWhole x.1) a.begin _ _
            (λ p. IsWhole-after_prepare kind key parent (opened st) c) (λ e p. c)
