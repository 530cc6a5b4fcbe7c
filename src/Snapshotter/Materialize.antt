-- ===== src/Snapshotter/Materialize.antt =====
-- sysbox-snapshotter/fuseoverlayfs.go: the user namespace that the snapshotter runs in, and the copy
-- of the merged view that a nested one needs.
use sysbox.Prelude.{
  ℕ, ◌+◌, ◌-◌, ◌*◌, Bool, false, not, ◌&&◌, Option, none, some, List, [], ◌∷◌, if◌then◌else◌, ◌==◌,
  ltb, leb, Result, ok, err, wrap, is_error, os_not_exist,
}
use sysbox.Go.Strings.{Text, codes, text_eq, fields}
use sysbox.Go.Filepath.{join_path}
use sysbox.Action.{Action, pure, fail, in_context, ◌>>◌}
use sysbox.Snapshotter.Mount.{Mount}

-- The digits behind the number read so far; a number of 2³² or more is out of range.
parse_digits : ℕ → Text → Option ℕ
parse_digits n [] = some n
parse_digits n (c ∷ s) =
    let rest = parse_digits (n * 10 + (c - b'0')) s in
    if leb b'0' c && (leb c b'9' && ltb (n * 10 + (c - b'0')) 4294967296) then rest else none

-- `strconv.ParseUint(s, 10, 32)`
unfoldable pub parse_uint32 : Text → Option ℕ
unfolding parse_digits
parse_uint32 [] = none
parse_uint32 (c ∷ s) = parse_digits 0 (c ∷ s)

-- The first three fields, of which the third only has to be there.
unfoldable pub is_nested_map : List Text → Bool
is_nested_map (inside ∷ host ∷ size ∷ more) =
    text_eq inside (codes "0") && elim (parse_uint32 host) [ none ↦ false | some n ↦ not (n == 0) ]
is_nested_map _ = false

-- `uid_map` is what reading /proc/self/uid_map gives.
unfoldable pub running_in_nested_user_ns : Result Text → Bool
unfolding is_nested_map
running_in_nested_user_ns (err e) = false
running_in_nested_user_ns (ok uid_map) = is_nested_map (fields uid_map)

pub record Host (W : Type 0) : Type 0 where
  pub stat : Text → Action W (Unit {0})
  pub mkdir_all : Text → ℕ → Action W (Unit {0})
  pub mount_at : Mount → Text → Action W (Unit {0})
  pub unmount_all : Text → Action W (Unit {0})
  pub copy_dir : Text → Text → Action W (Unit {0})
  pub write_file : Text → Text → ℕ → Action W (Unit {0})

module _ {W : Type 0} (host : Host W) (root : Text) where
  -- `defer mount.UnmountAll`: its error is only logged.
  and_unmount : Text → Action W (Unit {0}) → Action W (Unit {0})
  and_unmount merged act w = let (r, v) = act w in let (_, u) = host.unmount_all merged v in (r, u)

  materialize : Text → Mount → Text → Text → Text → Action W (Unit {0})
  unfolding and_unmount
  materialize snapshot_id merged_mount upper work marker =
      let merged = join_path (root ∷ codes "snapshots" ∷ snapshot_id ∷ codes "merged" ∷ []) in
      do
        in_context "create temporary merged rootfs" (host.mkdir_all merged 0o755)
        in_context "mount temporary merged rootfs" (host.mount_at merged_mount merged)
        and_unmount merged (do
          in_context "materialize active rootfs" (host.copy_dir upper merged)
          in_context "write rootfs materialization marker"
              (host.write_file marker (codes "materialized\n") 0o600))

  -- The marker of an earlier copy is looked for first.
  unfoldable pub materialize_active_snapshot : Text → Mount → Text → Text → Action W (Unit {0})
  unfolding materialize
  materialize_active_snapshot snapshot_id merged_mount upper work w =
      let marker = join_path (work ∷ codes ".sysbox-materialized-rootfs" ∷ []) in
      let (r, v) = host.stat marker w in
      let copied = materialize snapshot_id merged_mount upper work marker v in
      elim r [
        | ok u ↦ pure tt v
        | err e ↦
            (if is_error e os_not_exist
              then copied
              else fail (wrap "stat rootfs materialization marker" e) v)
      ]
