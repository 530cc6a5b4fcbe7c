-- ===== src/Admission/Validate/Accepted.antt =====
-- What the webhook's checks of the annotation ensure of its entries.
use sysbox.Prelude.{
  ◌++◌, Bool, Bool-cases, inl, inr, find, subst, ◌≡◌, refl, sym, ap, ◌∙◌, true, false, not, ◌&&◌,
  ◌||◌, Option, none, some, List, [], ◌∷◌, arith, any, All, is_empty, map, ok, fail_if-eq-ok,
  context-eq-ok, >>=-eq-ok, is_ok,
}
use sysbox.Go.Strings.{Text, text_eq, text_eq_iff, blank, contains, trim_space}
use sysbox.Go.Filepath.{elements}
use sysbox.Admission.Pod.{Container, Volume, PodSpec, RootfsRwLayerEntry}
use sysbox.Admission.Validate.{
  Json, is_claim, find_container, find_pvc_volume, validate_relative_path, claim_name, claim_of,
  container_of, validate_entry, validate_entries, trailing, parse_entries,
}
use sysbox.Admission.Validate.Agreement.{validate_relative_path-safe_layer_path}
use sysbox.Admission.Validate.Special.{
  reserved_directories, IsFarFrom, IsApart, validate_special_paths_lem,
}
use sysbox.Rootfs.Path.{safe_layer_path}

-- A member of a list, with those before and behind it.
abbrev pub IsIn {ℓ} : {A : Type ℓ} → A → List A → Type ℓ
IsIn {A = A} x xs = (before : List A) × (after : List A) × (xs ≡ before ++ x ∷ after)

find-IsIn {ℓ} :
    {A : Type ℓ} (q : A → Bool) (xs : List A) {x : A}
    → find q xs ≡ some x
    → IsIn x xs × (q x ≡ true)
unfolding find
find-IsIn q [] h = absurd (ground arith)
find-IsIn q (y ∷ xs) {x} h = elim (Bool-cases (q y)) [
  | inl t ↦
      let same : y ≡ x = ground (arith, t) in
      (([], xs, ap (λ z. z ∷ xs) same), subst (λ z. q z ≡ true) same t)
  | inr f ↦
      let ((before, after, e), holds) = find-IsIn q xs {x = x} (ground (arith, f)) in
      ((y ∷ before, after, ap (λ zs. y ∷ zs) e), holds)
]

find_container-IsIn :
    (spec : PodSpec) (name : Text) {c : Container}
    → find_container spec name ≡ some c
    → IsIn c spec.containers × (c.name ≡ name)
unfolding find_container
find_container-IsIn spec name {c} h =
    let (member, same) =
      find-IsIn (λ (d : Container). text_eq d.name name) spec.containers {x = c} h in
    (member, (text_eq_iff c.name name).0 same)

find_pvc_volume-IsIn :
    (spec : PodSpec) (name : Text) {v : Volume}
    → find_pvc_volume spec name ≡ some v
    → IsIn v spec.volumes × (v.name ≡ name)
unfolding find_pvc_volume
find_pvc_volume-IsIn spec name {v} h =
    let (member, same) =
      find-IsIn (λ (d : Volume). text_eq d.name name && is_claim d.claim) spec.volumes {x = v} h in
    (member, (text_eq_iff v.name name).0 (ground (arith, same)))

-- An entry that names a container of the pod and a volume that is a claim, with a path that the
-- snapshotter takes and special paths that are apart from each other and from the built-in ones.
pub record IsAccepted (spec : PodSpec) (entry : RootfsRwLayerEntry) : Type 0 where
  pub named : blank entry.volume_name ≡ false
  pub container : Container
  pub found : IsIn container spec.containers
  pub same_name : container.name ≡ entry.name
  pub volume : Volume
  pub found_volume : IsIn volume spec.volumes
  pub same_volume_name : volume.name ≡ entry.volume_name
  pub claim : Text
  pub claims : volume.claim ≡ some claim
  pub named_claim : blank claim ≡ false
  pub safe : is_ok (safe_layer_path entry.path) ≡ true
  pub special : (is_empty entry.special_path || entry.persistent_special_mounts) ≡ true
  pub far : All (IsFarFrom reserved_directories) entry.special_path
  pub apart : IsApart (map elements entry.special_path)

-- The entries have names, and no two have the same.
abbrev pub AreDistinct : List RootfsRwLayerEntry → Type 0
AreDistinct [] = Unit
AreDistinct (e ∷ es) =
    (blank e.name ≡ false)
    × (any (λ (d : RootfsRwLayerEntry). text_eq d.name e.name) es ≡ false)
    × AreDistinct es

abbrev AreNew : List Text → List RootfsRwLayerEntry → Type 0
AreNew seen [] = Unit
AreNew seen (e ∷ es) = (contains seen e.name ≡ false) × AreNew seen es

AreNew-cons :
    (n : Text) (seen : List Text) (es : List RootfsRwLayerEntry)
    → AreNew (n ∷ seen) es
    → AreNew seen es × (any (λ (d : RootfsRwLayerEntry). text_eq d.name n) es ≡ false)
unfolding contains any
AreNew-cons n seen [] h = (tt, refl)
AreNew-cons n seen (e ∷ es) (new, h) =
    let (rest, later) = AreNew-cons n seen es h in ((ground arith, rest), ground (arith, later))

found_container : (c : Option Container) → container_of c ≡ ok tt → (d : Container) × (c ≡ some d)
unfolding container_of
found_container none h = absurd (ground arith)
found_container (some d) h = (d, refl)

found_claim :
    (v : Option Volume)
    → claim_of v ≡ ok tt
    → (w : Volume) × (c : Text) × (v ≡ some w) × (w.claim ≡ some c) × (blank c ≡ false)
unfolding claim_of
found_claim none h = absurd (ground arith)
found_claim (some w) h = go w.claim h refl
  where
    go :
        (claim : Option Text)
        → claim_name claim ≡ ok tt
        → w.claim ≡ claim
        → (u : Volume) × (c : Text) × (some w ≡ some u) × (u.claim ≡ some c) × (blank c ≡ false)
    go none h e = absurd (ground arith)
    go (some []) h e = absurd (ground arith)
    go (some (c ∷ s)) h e = (w, c ∷ s, refl, e, refl)

validate_entry-IsAccepted :
    (spec : PodSpec) (entry : RootfsRwLayerEntry)
    → validate_entry spec entry ≡ ok tt
    → IsAccepted spec entry
unfolding validate_entry
validate_entry-IsAccepted spec entry h =
    let (named, h1) = fail_if-eq-ok (blank entry.volume_name) _ _ h in
    let (_, c, h2) = >>=-eq-ok (container_of (find_container spec entry.name)) _ h1 in
    let (_, v, h3) = >>=-eq-ok (claim_of (find_pvc_volume spec entry.volume_name)) _ h2 in
    let (_, p, h4) = context-eq-ok _ (validate_relative_path entry.path) _ h3 in
    let (s, h5) =
      fail_if-eq-ok (not (is_empty entry.special_path) && not entry.persistent_special_mounts) _ _
        h4 in
    let (container, d) = found_container _ c in
    let (found, same_name) = find_container-IsIn spec entry.name {c = container} d in
    let (volume, claim, u, claims, named_claim) = found_claim _ v in
    let (found_volume, same_volume_name) =
      find_pvc_volume-IsIn spec entry.volume_name {v = volume} u in
    let (far, apart) = validate_special_paths_lem entry.special_path h5 in
    record {
      named = named;
      container = container;
      found = found;
      same_name = same_name;
      volume = volume;
      found_volume = found_volume;
      same_volume_name = same_volume_name;
      claim = claim;
      claims = claims;
      named_claim = named_claim;
      safe = sym (validate_relative_path-safe_layer_path entry.path) ∙ ap is_ok p;
      special = ground (arith, s);
      far = far;
      apart = apart;
    }

validate_entries-AreDistinct :
    (spec : PodSpec) (seen : List Text) (es : List RootfsRwLayerEntry)
    → validate_entries spec seen es ≡ ok tt
    → All (IsAccepted spec) es × AreDistinct es × AreNew seen es
unfolding validate_entries
validate_entries-AreDistinct spec seen [] h = (tt, tt, tt)
validate_entries-AreDistinct spec seen (e ∷ es) h =
    let (named, h1) = fail_if-eq-ok (blank e.name) _ _ h in
    let (new, h2) = fail_if-eq-ok (contains seen e.name) _ _ h1 in
    let (_, accepted, h3) = >>=-eq-ok (validate_entry spec e) _ h2 in
    let (all, distinct, later) = validate_entries-AreDistinct spec (e.name ∷ seen) es h3 in
    let (rest, others) = AreNew-cons e.name seen es later in
    ((validate_entry-IsAccepted spec e accepted, all), (named, others, distinct), (new, rest))

-- The entries of an annotation that the webhook accepts: there is one at least, their names differ and
-- are not empty, and each names a container of the pod and one of its volumes that has a claim, with a
-- path that the snapshotter takes, and with special paths that are absolute and not the root, of which
-- by their elements none is, contains or lies in another one or one of the seven directories that the
-- webhook reserves, and that are there only where the entry keeps special mounts.
pub parse_entries-IsAccepted :
    (json : Json) (spec : PodSpec) (raw : Text) {es : List RootfsRwLayerEntry}
    → parse_entries json spec raw ≡ ok es
    → (is_empty es ≡ false) × AreDistinct es × All (IsAccepted spec) es
unfolding parse_entries
parse_entries-IsAccepted json spec raw {es} h =
    let (_, h1) = fail_if-eq-ok _ _ _ h in
    let (decoded, _, h2) = context-eq-ok _ (json.decode_entries raw) _ h1 in
    let (_, _, h3) = >>=-eq-ok (trailing (json.decode_more decoded.1)) _ h2 in
    let (some_entry, h4) = fail_if-eq-ok (is_empty decoded.0) _ _ h3 in
    let (_, valid, last) = >>=-eq-ok (validate_entries spec [] decoded.0) _ h4 in
    let (all, distinct, _) = validate_entries-AreDistinct spec [] decoded.0 valid in
    subst
      (λ (xs : List RootfsRwLayerEntry).
        (is_empty xs ≡ false) × AreDistinct xs × All (IsAccepted spec) xs)
      (ok-inj last) (some_entry, distinct, all)
  where
    ok-inj : {a b : List RootfsRwLayerEntry} → ok a ≡ ok b → a ≡ b
    ok-inj e = ground arith

-- An annotation that is accepted is not empty.
pub parse_entries-blank :
    (json : Json) (spec : PodSpec) (raw : Text) {es : List RootfsRwLayerEntry}
    → parse_entries json spec raw ≡ ok es
    → blank raw ≡ false
unfolding parse_entries trim_space
parse_entries-blank json spec [] h = absurd (ground arith)
parse_entries-blank json spec (c ∷ s) h = refl
