-- ===== src/Tests/Supports.antt =====
-- The check of fuse-overlayfs on a system where every call works; the state is the list of the
-- directories that are there.
use sysbox.Prelude.{◌≡◌, refl, Bool, false, not, List, [], ◌∷◌, keep, arith, ok}
use sysbox.Go.Strings.{Text, codes, text_eq, contains}
use sysbox.Snapshotter.Support.{System, supported}
use sysbox.Snapshotter.Support.Checked.{IsChecked, supported-IsChecked}
use sysbox.Snapshotter.Operations.Orphans.{contains-keep}
use sysbox.Go.Strings.{text_eq_refl}

abbrev system : System (List Text)
system = record {
  look_path = λ name w. (ok name, w);
  mkdir_all = λ p m w. (ok tt, p ∷ w);
  mkdir = λ p m w. (ok tt, p ∷ w);
  mkdir_temp = λ dir prefix w. (ok (codes "/r/check1"), codes "/r/check1" ∷ w);
  remove_all = λ p w. (ok tt, keep (λ x. not (text_eq x p)) w);
  mount_at = λ m p w. (ok tt, w);
  unmount_all = λ p w. (ok tt, w);
}

there : Text → List Text → Bool
there p w = contains w p

removes : (p : Text) (w : List Text) → there p (system.remove_all p w).1 ≡ false
unfolding there
removes p w = ground (arith, contains-keep (λ x. not (text_eq x p)) w p, text_eq_refl p)

check_succeeds : (supported system (codes "/r") []).0 ≡ ok tt
unfolding supported
check_succeeds = refl

supported-IsChecked_example :
    IsChecked system there removes (codes "/r") (supported system (codes "/r") []).1
supported-IsChecked_example =
    supported-IsChecked system there removes (codes "/r") [] check_succeeds
