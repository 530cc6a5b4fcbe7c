-- ===== src/Lite/Detect.antt =====
-- sysbox-runc-lite/lite.go: which sources of bind mounts are volumes of the pod.
use sysbox.Prelude.{
  Bool, false, not, ◌&&◌, ◌||◌, Option, none, some, List, [], ◌∷◌, ◌++◌, if◌then◌else◌, any, Result,
  ok, err,
}
use sysbox.Go.Strings.{Text, codes, text_eq, blank, has_prefix}
use sysbox.Go.Filepath.{dot, abs, rel, join_path}
use sysbox.Rootfs.Types.{OciMount}

abbrev pub lite_kubelet_pods_dir : Text
lite_kubelet_pods_dir = codes "/var/lib/kubelet/pods"

unfoldable pub lite_mount_read_only : OciMount → Bool
unfolding any
lite_mount_read_only mount = any (λ option. text_eq option (codes "ro")) mount.options

-- The parts of `strings.Split(rel, "/")`: a directory relative to itself is the one part `.`.
unfoldable pub rel_parts : Text → Text → Result (List Text)
rel_parts root source = elim (rel root source) [
  | err e ↦ err e
  | ok es ↦ (elim es [ [] ↦ ok (dot ∷ []) | e ∷ t ↦ ok (e ∷ t) ])
]

-- The layout below a root of volumes: `<volume>` or `<volume>/mount`.
unfoldable pub is_direct : Result (List Text) → Bool
is_direct (err e) = false
is_direct (ok []) = false
is_direct (ok (v ∷ [])) = not (blank v)
is_direct (ok (v ∷ m ∷ [])) = not (blank v) && text_eq m (codes "mount")
is_direct (ok (v ∷ m ∷ x ∷ more)) = false

unfoldable pub pod_root : Text → Text → Text
pod_root pods_dir pod_uid = join_path (pods_dir ∷ pod_uid ∷ [])

unfoldable pub volume_roots : Text → List Text
volume_roots root =
    join_path (root ∷ codes "volumes" ∷ codes "kubernetes.io~csi" ∷ [])
    ∷ join_path (root ∷ codes "volumes" ∷ codes "kubernetes.io~local-volume" ∷ [])
    ∷ []

-- `exists` is whether `os.Stat` of a path succeeds.
module _ (exists : Text → Bool) where
  unfoldable pub volume_known : List Text → Text → Bool
  unfolding any
  volume_known roots volume =
      has_prefix volume (codes "pvc-")
      || any
          (λ root.
            exists (join_path (root ∷ volume ∷ codes "mount" ∷ []))
            || exists (join_path (root ∷ volume ∷ [])))
          roots

  -- The layout of a sub-path: `<volume>/<container>/<index>`.
  unfoldable pub is_subpath : List Text → Text → Result (List Text) → Bool
  unfolding volume_known
  is_subpath roots container_name (ok (volume ∷ container ∷ index ∷ [])) =
      not (blank volume || (blank container || blank index))
      && ((text_eq container container_name || has_prefix container_name (container ++ codes "-"))
          && volume_known roots volume)
  is_subpath roots container_name _ = false

  unfoldable pub accepts_source : Text → Text → Text → Bool
  unfolding volume_roots rel_parts is_direct is_subpath any
  accepts_source source root container_name =
      any (λ direct. is_direct (rel_parts direct source)) (volume_roots root)
      || is_subpath (volume_roots root) container_name
          (rel_parts (join_path (root ∷ codes "volume-subpaths" ∷ [])) source)

  unfoldable pub detect_lite_pvc_source_at : Result Text → Text → Text → Text → Text → Option Text
  unfolding accepts_source pod_root
  detect_lite_pvc_source_at cwd source pod_uid container_name pods_dir = elim (abs cwd source) [
    | err e ↦ none
    | ok clean_source ↦
        (if accepts_source clean_source (pod_root pods_dir pod_uid) container_name
          then some clean_source
          else none)
  ]

  unfoldable pub detect_lite_pvc_source : Result Text → Text → Text → Text → Option Text
  detect_lite_pvc_source cwd source pod_uid container_name =
      detect_lite_pvc_source_at cwd source pod_uid container_name lite_kubelet_pods_dir
