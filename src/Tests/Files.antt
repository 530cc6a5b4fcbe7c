-- ===== src/Tests/Files.antt =====
-- The handoff on a small file system: the changes of the files, newest first, and an encoding of the
-- handoff that has each field behind its length.
use sysbox.Prelude.{
  ℕ, zero, suc, ◌≡◌, ◌≢◌, refl, sym, ap, ◌∙◌, true, false, Bool-cases, inl, inr, Option, none, some,
  List, [], ◌∷◌, ◌++◌, arith, if◌then◌else◌, Result, ok, err, sentinel, io_eof, os_not_exist,
}
use sysbox.Go.Strings.{Text, codes, text_eq, text_eq_refl, text_eq_iff}
use sysbox.Admission.Pod.{RootfsRwLayerEntry}
use sysbox.Rootfs.Os.{Os, directory}
use sysbox.Rootfs.Types.{PersistentSpecialHandoff}
use sysbox.Rootfs.Handoff.{persistent_special_handoff_dir, handoff_path, write_handoff}
use sysbox.Rootfs.Handoff.Written.{FileLaws}
use sysbox.Lite.Dirs.{LiteOs}
use sysbox.Lite.Special.{decode_handoff, handoff_matches, load_lite_handoff}
use sysbox.Go.Json.{JsonValue, json_number, json_text, JsonObjects, JsonLaws}
use sysbox.Snapshotter.Hooks.{handoff_store_of}
use sysbox.Lite.Special.Handover.{lite_of, IsEncodable, load_lite_handoff-write_handoff}

abbrev Files : Type 0
Files = List (Text × Option Text)

content : Text → Files → Option Text
content p [] = none
content p ((q, c) ∷ w) = let rest = content p w in if text_eq q p then c else rest

read_file : Option Text → Result Text
read_file none = err (sentinel os_not_exist)
read_file (some t) = ok t

abbrev temporary : Text
temporary = codes "tmp"

abbrev os : Os Files
os = record {
  lstat = λ p w. (ok directory, w);
  mkdir_all = λ p m w. (ok tt, w);
  chmod = λ p m w. (ok tt, w);
  create_temp = λ dir prefix w. (ok temporary, (temporary, some []) ∷ w);
  write = λ p t w. (ok tt, (p, some t) ∷ w);
  close = λ p w. (ok tt, w);
  rename = λ p q w. (ok tt, (q, content p w) ∷ (p, none) ∷ w);
  remove = λ p w. (ok tt, (p, none) ∷ w);
  read = λ p w. (read_file (content p w), w);
}

abbrev lite : LiteOs Files
lite = record {
  lstat = λ p w. (ok directory, w);
  read_dir_names = λ p w. (ok [], w);
  mkdir_all = λ p m w. (ok tt, w);
  chmod = λ p m w. (ok tt, w);
  readlink = λ p w. (ok p, w);
  make_symlink = λ p q w. (ok tt, w);
  open_read = λ p w. (read_file (content p w), w);
  create_exclusive = λ p m w. (ok tt, w);
  copy_contents = λ p q w. (ok tt, w);
  close = λ p w. (ok tt, w);
  walk = λ p w. [];
}

content-here : (p : Text) (c : Option Text) (w : Files) → content p ((p, c) ∷ w) ≡ c
unfolding content
content-here p c w = rw (text_eq_refl p) refl

content-other :
    (p q : Text) (c : Option Text) (w : Files) → p ≢ q → content q ((p, c) ∷ w) ≡ content q w
unfolding content
content-other p q c w n = elim (Bool-cases (text_eq p q)) [
  | inl y ↦ absurd (n ((text_eq_iff p q).0 y))
  | inr e ↦ rw e refl
]

ok-inj {ℓ} : {A : Type ℓ} {a b : A} → ok a ≡ ok b → a ≡ b
ok-inj e = ground arith

-- Two entries are apart where their paths differ.
abbrev Apart : Text → Text → Files → Type 0
Apart p q w = p ≢ q

same_where_missing :
    (p q : Text) (w : Files) → content p w ≡ none → content q ((p, none) ∷ w) ≡ content q w
unfolding content
same_where_missing p q w h = elim (Bool-cases (text_eq p q)) [
  | inl y ↦ rw y (sym h ∙ ap (λ x. content x w) ((text_eq_iff p q).0 y))
  | inr n ↦ rw n refl
]

moved : (p q : Text) (w : Files) → p ≢ q → content p ((q, content p w) ∷ (p, none) ∷ w) ≡ none
moved p q w n =
    content-other q p (content p w) ((p, none) ∷ w) (λ e. n (sym e)) ∙ content-here p none w

files_laws : FileLaws os content Apart
files_laws = record {
  chmod_keeps = λ p q m w. refl;
  close_keeps = λ p q w. refl;
  makes_empty = λ dir prefix w h. rw (← ok-inj h) (content-here temporary (some []) w);
  write_puts = λ p t w e h. content-here p (some t) w;
  rename_moves = λ p q w h. content-here q (content p w) ((p, none) ∷ w);
  rename_leaves = λ p q w n h. moved p q w n;
  remove_missing = same_where_missing;
  chmod_apart = λ p q m w n. n;
  write_apart = λ p q t w n. n;
  close_apart = λ p q w n. n;
}

measure : Text → ℕ
measure [] = zero
measure (c ∷ s) = suc (measure s)

put : Text → Text → Text
unfolding measure
put s rest = measure s ∷ (s ++ rest)

take_off : ℕ → Text → Text × Text
take_off zero s = ([], s)
take_off (suc n) [] = ([], [])
take_off (suc n) (c ∷ s) = let (a, b) = take_off n s in (c ∷ a, b)

take_off-measure : (s rest : Text) → take_off (measure s) (s ++ rest) ≡ (s, rest)
unfolding take_off measure
take_off-measure [] rest = refl
take_off-measure (c ∷ s) rest = rw (take_off-measure s rest) refl

-- A field is its key and its value, each behind its length; a number stands behind a zero.
write_fields : List (Text × JsonValue) → Text
unfolding put
write_fields [] = []
write_fields ((k, json_number n) ∷ fields) = put k (0 ∷ n ∷ write_fields fields)
write_fields ((k, json_text t) ∷ fields) = put k (1 ∷ put t (write_fields fields))

-- One field, whose key is taken off, and the rest by `again`.
read_value : (Text → List (Text × JsonValue)) → Text × Text → List (Text × JsonValue)
unfolding take_off
read_value again (k, zero ∷ m ∷ rest) = (k, json_number m) ∷ again rest
read_value again (k, suc z ∷ l ∷ rest) =
    let (v, more) = take_off l rest in (k, json_text v) ∷ again more
read_value again (k, _) = []

read_fields : ℕ → Text → List (Text × JsonValue)
unfolding read_value
read_fields zero t = []
read_fields (suc n) [] = []
read_fields (suc n) (l ∷ t) = read_value (λ u. read_fields n u) (take_off l t)

count : List (Text × JsonValue) → ℕ
count [] = zero
count (f ∷ fields) = suc (count fields)

read-write :
    (fields : List (Text × JsonValue)) → read_fields (count fields) (write_fields fields) ≡ fields
unfolding read_fields read_value write_fields count put
read-write [] = refl
read-write ((k, json_number n) ∷ fields) =
    rw (take_off-measure k (0 ∷ n ∷ write_fields fields))
      (ap (λ x. (k, json_number n) ∷ x) (read-write fields))
read-write ((k, json_text t) ∷ fields) =
    rw
      (
        take_off-measure k (1 ∷ put t (write_fields fields)),
        take_off-measure t (write_fields fields),
      )
      (ap (λ x. (k, json_text t) ∷ x) (read-write fields))

parse : Text → Result (List (Text × JsonValue))
parse [] = err (sentinel io_eof)
parse (n ∷ t) = ok (read_fields n t)

json : JsonObjects
json = record {
  encode = λ fields. ok (count fields ∷ write_fields fields);
  parse = parse;
  valid = λ t. true;
}

json_laws : JsonLaws json
unfolding json parse
json_laws = record { parse-encode = λ fields v h. rw (← ok-inj h) (ap ok (read-write fields)) }

abbrev digest : Text → Text
digest t = t

abbrev handoff : PersistentSpecialHandoff
handoff = record {
  version = 1;
  snapshot_key = codes "k";
  pod_uid = codes "u";
  container_name = codes "app";
  volume_name = codes "disk";
  pvc_mount_path = codes "/v";
}

abbrev entry : RootfsRwLayerEntry
entry = record {
  name = codes "app";
  volume_name = codes "disk";
  path = codes "data";
  persistent_special_mounts = true;
  special_path = [];
}

handoff_is_written : ((handoff_store_of os digest json none).write handoff []).0 ≡ ok tt
unfolding handoff_store_of write_handoff json sysbox.Prelude.check_context
    sysbox.Rootfs.Handoff.is_incomplete
handoff_is_written = refl

path_of_handoff :
    handoff_path os digest persistent_special_handoff_dir handoff.snapshot_key
    ≡ codes "/run/sysbox/rootfs-pvc-handoff/k.json"
unfolding handoff_path sysbox.Go.Filepath.join_path sysbox.Go.Strings.Split.join
    sysbox.Go.Strings.Split.split text_eq
path_of_handoff = refl

is_not_temporary : temporary ≢ codes "/run/sysbox/rootfs-pvc-handoff/k.json"
is_not_temporary e = absurd (omega (arith, ap first e))
  where
    first : Text → ℕ
    first [] = zero
    first (c ∷ s) = c

temporary_is_apart :
    (v : Files) (tmp : Text)
    → (os.create_temp persistent_special_handoff_dir (codes ".handoff-") v).0 ≡ ok tmp
    → tmp ≢ handoff_path os digest persistent_special_handoff_dir handoff.snapshot_key
temporary_is_apart v tmp h e = is_not_temporary (ok-inj h ∙ e ∙ path_of_handoff)

handoff-IsEncodable :
    IsEncodable os lite content Apart files_laws
      (λ p w t h. unfold read_file in ap read_file h)
      digest
      json
      json_laws
      handoff
unfolding json
handoff-IsEncodable = record {
  snapshot_key = refl;
  pod_uid = refl;
  container_name = refl;
  volume_name = refl;
  pvc_mount_path = refl;
}

load_lite_handoff-write_handoff_example :
    ((load_lite_handoff lite digest
        (decode_handoff json)
        handoff.snapshot_key
        ((handoff_store_of os digest json none).write handoff []).1).0
      ≡ ok (lite_of handoff))
    × (handoff_matches (lite_of handoff) entry handoff.container_name handoff.snapshot_key ≡ true)
unfolding read_file
load_lite_handoff-write_handoff_example =
    load_lite_handoff-write_handoff os lite content Apart files_laws (λ p w t h. ap read_file h)
      digest json json_laws none handoff entry [] temporary_is_apart handoff-IsEncodable
      handoff_is_written refl
