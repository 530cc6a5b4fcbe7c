-- ===== src/Go/Filepath.antt =====
-- The functions of Go's `path/filepath` on Linux that the code calls. `clean` follows the
-- documented rules of `filepath.Clean` on the path's elements.
pub mod Normal
pub mod Clean
pub mod Inside
use sysbox.Prelude.{
  ℕ, Bool, true, false, ◌||◌, not, List, [], ◌∷◌, ◌++◌, rev, ◌==◌, length, if◌then◌else◌, Result,
  ok, err, errorf, replicate,
}
use sysbox.Go.Strings.{Text, text_eq, blank}
use sysbox.Go.Strings.Split.{split, join}

abbrev pub slash : ℕ
slash = b'/'

abbrev pub dot : Text
dot = b'.' ∷ []

abbrev pub dot_dot : Text
dot_dot = b'.' ∷ b'.' ∷ []

-- `filepath.IsAbs`
unfoldable pub is_abs : Text → Bool
is_abs [] = false
is_abs (c ∷ s) = c == slash

-- One element, over the elements kept so far, the last one first: `..` takes the last one back,
-- is dropped at the root, and is kept at the front of a path with no root.
unfoldable pub go_up : Bool → List Text → List Text
go_up true [] = []
go_up false [] = dot_dot ∷ []
go_up rooted (e ∷ kept) = if text_eq e dot_dot then dot_dot ∷ e ∷ kept else kept

unfoldable pub add_element : Bool → List Text → Text → List Text
unfolding go_up
add_element rooted kept e =
    if blank e || text_eq e dot
    then kept
    else if text_eq e dot_dot
    then go_up rooted kept
    else e ∷ kept

unfoldable pub clean_from : Bool → List Text → List Text → List Text
clean_from rooted kept [] = kept
clean_from rooted kept (e ∷ es) = clean_from rooted (add_element rooted kept e) es

-- The elements of the cleaned path, the last one first, and then in order.
unfoldable pub elements : Text → List Text
unfolding clean_from add_element is_abs
elements p = rev (clean_from (is_abs p) [] (split slash p))

unfoldable pub show_path : Bool → List Text → Text
show_path true es = slash ∷ join slash es
show_path false [] = dot
show_path false (e ∷ es) = join slash (e ∷ es)

-- `filepath.Clean`
unfoldable pub clean : Text → Text
unfolding elements show_path is_abs
clean p = show_path (is_abs p) (elements p)

-- `filepath.Join`: the empty texts at the front are left out.
unfoldable pub join_path : List Text → Text
unfolding clean
join_path [] = []
join_path (e ∷ es) = if blank e then join_path es else clean (join slash (e ∷ es))

-- `filepath.Abs`, for the working directory that `os.Getwd` returns.
unfoldable pub abs : Result Text → Text → Result Text
unfolding clean join_path is_abs
abs cwd p =
    if is_abs p
    then ok (clean p)
    else elim cwd [ ok d ↦ ok (join_path (d ∷ p ∷ [])) | err e ↦ err e ]

unfoldable pub rel_elements : List Text → List Text → Result (List Text)
rel_elements [] ts = ok ts
rel_elements (b ∷ bs) [] =
    if text_eq b dot_dot
    then err (errorf "Rel: can't make target relative to base")
    else ok (replicate (length (b ∷ bs)) dot_dot)
rel_elements (b ∷ bs) (t ∷ ts) =
    if text_eq b t
    then rel_elements bs ts
    else if text_eq b dot_dot
    then err (errorf "Rel: can't make target relative to base")
    else ok (replicate (length (b ∷ bs)) dot_dot ++ t ∷ ts)

bool_eq : Bool → Bool → Bool
bool_eq true b = b
bool_eq false b = not b

-- `filepath.Rel`, as the elements of its result: none of them is `.`, the relative path of a
-- directory to itself.
unfoldable pub rel : Text → Text → Result (List Text)
unfolding elements is_abs rel_elements bool_eq
rel base target =
    if bool_eq (is_abs base) (is_abs target)
    then rel_elements (elements base) (elements target)
    else err (errorf "Rel: can't make target relative to base")

abbrev last_or : Text → List Text → Text
last_or d [] = d
last_or d (e ∷ es) = last_or e es

-- `filepath.Base` and `path.Base`
unfoldable pub base : Text → Text
base [] = dot
base (c ∷ p) = last_or (slash ∷ []) (keep_non_blank (split slash (c ∷ p)))
  where
    keep_non_blank : List Text → List Text
    keep_non_blank [] = []
    keep_non_blank (e ∷ es) = if blank e then keep_non_blank es else e ∷ keep_non_blank es
