-- ===== src/Tests/Histories.antt =====
-- Some calls on a snapshotter whose metadata is the list of its identifiers, which are the keys.
use sysbox.Prelude.{
  ℕ, ◌+◌, ◌≡◌, refl, sym, ap, ◌∙◌, Bool, true, false, not, ◌&&◌, ◌||◌, Bool-cases, inl, inr,
  if◌then◌else◌, List, [], ◌∷◌, arith, Result, ok, err, sentinel, io_eof, keep, any,
}
use sysbox.Go.Strings.{Text, codes, text_eq, text_eq_iff, contains, has_prefix}
use sysbox.Snapshotter.Mounts.{Kind, Snapshot, active}
use sysbox.Snapshotter.Store.{Storage, Store}
use sysbox.Snapshotter.Create.{create_snapshot}
use sysbox.Snapshotter.Operations.{mounts_of, cleanup}
use sysbox.Snapshotter.Operations.Orphans.{contains-keep}
use sysbox.Snapshotter.History.{
  StorageLaws, IsNamed, Reaches, here, next, creates, cleans, mounts_again, loses_transaction,
}
use sysbox.Snapshotter.History.Created.{IsWhole}
use sysbox.Snapshotter.History.Whole.{Reaches-IsWhole, open-Reaches}
use sysbox.Tests.Snapshots.{answers, info, no_usage, mounts_made}

is_temporary : Text → Bool
is_temporary d = has_prefix d (codes "new-")

create : Kind → Text → Text → List Text → Result (Snapshot × List Text)
unfolding is_temporary
create kind key parent m =
    if is_temporary key || contains m key
    then err (sentinel io_eof)
    else ok (record { kind = kind; id = key; parent_ids = [] }, key ∷ m)

abbrev storage : Storage (List Text)
storage = record {
  get_info = λ key m. ok (record { id = key; info = info; usage = no_usage });
  get_snapshot = λ key m. err (sentinel io_eof);
  create_snapshot = create;
  commit_active = λ key name u m. ok m;
  remove = λ key m. ok (keep (λ x. not (text_eq x key)) m);
  update_info = λ i m. ok (i, m);
  id_map = λ m. ok (keep (λ d. not (is_temporary d)) m);
}

abbrev owns : List Text → Text → Bool
owns m d = contains m d && not (is_temporary d)

create-ok :
    (kind : Kind) (key parent : Text) (m : List Text) {s : Snapshot} {m' : List Text}
    → create kind key parent m ≡ ok (s, m')
    → (is_temporary s.id ≡ false) × (contains m s.id ≡ false) × (m' ≡ s.id ∷ m)
unfolding create
create-ok kind key parent m h = ground arith

ok-inj {ℓ} : {A : Type ℓ} {a b : A} → ok a ≡ ok b → a ≡ b
ok-inj e = ground arith

owns-cons :
    (x : Text) (m : List Text) (d : Text)
    → is_temporary x ≡ false
    → owns (x ∷ m) d ≡ (text_eq d x || owns m d)
unfolding contains any
owns-cons x m d f = elim (Bool-cases (text_eq d x)) [
  | inl y ↦ ground (arith, y, f, ap is_temporary ((text_eq_iff d x).0 y))
  | inr n ↦ ground (arith, n)
]

owns-keep :
    (key : Text) (m : List Text) (d : Text)
    → owns (keep (λ x. not (text_eq x key)) m) d ≡ true
    → owns m d ≡ true
owns-keep key m d o = ground (arith, contains-keep (λ x. not (text_eq x key)) m d)

laws : StorageLaws storage owns
unfolding is_temporary
laws = record {
  lists = λ m d {ids} h.
      ap (λ xs. contains xs d) (sym (ok-inj h)) ∙ contains-keep (λ x. not (is_temporary x)) m d;
  creates = λ kind key parent m d {s} {m'} h.
      let (f, _, e) = create-ok kind key parent m {s = s} {m' = m'} h in
      ap (λ xs. owns xs d) e ∙ owns-cons s.id m d f;
  fresh = λ kind key parent m h. ground (arith, create-ok kind key parent m h);
  numerals = λ m d h. ground (arith, h);
  removes = λ key m d h o. owns-keep key m d (ap (λ xs. owns xs d) (ok-inj h) ∙ o);
  commits = λ key name measured m d h. ap (λ xs. owns xs d) (sym (ok-inj h));
  updates = λ i m d h. ground arith;
}

abbrev store : Store (List Text) ℕ
store = record { metadata = []; open_transactions = 0; dirs = codes "3" ∷ []; world = 0 }

IsNamed-answers : IsNamed answers
unfolding has_prefix
IsNamed-answers td h = rw (← ok-inj h) refl

abbrev behind_create : Store (List Text) ℕ
behind_create = (create_snapshot storage mounts_made answers active (codes "k") [] store).1

abbrev behind_mounts : Store (List Text) ℕ
behind_mounts = (mounts_of storage answers mounts_made (codes "k") behind_create).1

calls :
    Reaches storage mounts_made store
      (0 + 0 + loses_transaction storage mounts_made answers (codes "k") behind_create + 0)
      (cleanup storage answers behind_mounts).1
calls =
    next
      (next (next here (creates answers active (codes "k") [] IsNamed-answers))
        (mounts_again answers (codes "k")))
      (cleans answers)

open-Reaches_example :
    (cleanup storage answers behind_mounts).1.open_transactions
    ≡ 0 + (0 + 0 + loses_transaction storage mounts_made answers (codes "k") behind_create + 0)
open-Reaches_example = open-Reaches storage mounts_made calls

store-IsWhole : IsWhole owns store
unfolding contains any
store-IsWhole d h = absurd (ground arith)

Reaches-IsWhole_example : IsWhole owns (cleanup storage answers behind_mounts).1
Reaches-IsWhole_example =
    Reaches-IsWhole storage mounts_made owns laws (λ key s i w. refl) calls store-IsWhole
