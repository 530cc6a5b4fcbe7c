-- ===== src/Admission/Sidecar/Mounts.antt =====
-- The sidecar mounts each volume of the entries once.
use sysbox.Prelude.{
  ◌≡◌, refl, ◌∙◌, Bool, false, not, ◌&&◌, ◌||◌, List, [], ◌∷◌, arith, any, Bool-cases, inl, inr,
}
use sysbox.Go.Strings.{Text, text_eq, text_eq_iff, text_eq_refl, contains}
use sysbox.Admission.Pod.{VolumeMount, RootfsRwLayerEntry}
use sysbox.Admission.Sidecar.{mounts_from, required_sidecar_mounts}

abbrev pub mounts_volume : Text → List VolumeMount → Bool
mounts_volume v = any (λ (m : VolumeMount). text_eq v m.name)

abbrev pub uses_volume : Text → List RootfsRwLayerEntry → Bool
uses_volume v = any (λ (e : RootfsRwLayerEntry). text_eq v e.volume_name)

-- No two of the mounts are of one volume.
abbrev pub IsDistinct : List VolumeMount → Type 0
IsDistinct [] = Unit
IsDistinct (m ∷ ms) = (mounts_volume m.name ms ≡ false) × IsDistinct ms

contains-cons :
    (v w : Text) (seen : List Text) → contains (w ∷ seen) v ≡ (text_eq v w || contains seen v)
unfolding contains any
contains-cons v w seen = refl

mounts_volume-mounts_from :
    (v : Text) (seen : List Text) (es : List RootfsRwLayerEntry)
    → mounts_volume v (mounts_from seen es) ≡ (uses_volume v es && not (contains seen v))
unfolding mounts_from any
mounts_volume-mounts_from v seen [] = refl
mounts_volume-mounts_from v seen (e ∷ es) = ground (
  arith,
  mounts_volume-mounts_from v seen es,
  mounts_volume-mounts_from v (e.volume_name ∷ seen) es,
  contains-cons v e.volume_name seen,
  text_eq_iff v e.volume_name,
)

mounts_from-IsDistinct :
    (seen : List Text) (es : List RootfsRwLayerEntry) → IsDistinct (mounts_from seen es)
unfolding mounts_from
mounts_from-IsDistinct seen [] = tt
mounts_from-IsDistinct seen (e ∷ es) = elim (Bool-cases (contains seen e.volume_name)) [
  | inl old ↦ rw old (mounts_from-IsDistinct seen es)
  | inr new ↦ rw new (once e.volume_name seen es, mounts_from-IsDistinct (e.volume_name ∷ seen) es)
]
  where
    once :
        (v : Text) (before : List Text) (rest : List RootfsRwLayerEntry)
        → mounts_volume v (mounts_from (v ∷ before) rest) ≡ false
    once v before rest = ground (
      arith,
      mounts_volume-mounts_from v (v ∷ before) rest,
      contains-cons v v before,
      text_eq_refl v,
    )

-- The sidecar mounts a volume exactly if an entry names it, and no volume twice.
pub required_sidecar_mounts_lem :
    (es : List RootfsRwLayerEntry)
    → ((v : Text) → mounts_volume v (required_sidecar_mounts es) ≡ uses_volume v es)
      × IsDistinct (required_sidecar_mounts es)
unfolding required_sidecar_mounts
required_sidecar_mounts_lem es =
    (λ v. (mounts_volume-mounts_from v [] es) ∙ all_new v, mounts_from-IsDistinct [] es)
  where
    all_new : (v : Text) → (uses_volume v es && not (contains [] v)) ≡ uses_volume v es
    all_new v = unfold contains any in ground arith
