-- ===== src/Common/FilePath.antt =====
-- Package path/filepath on Unix: `Clean` and `Join`, by the parts between slashes.
pub mod Inside
use alpine_judge.Common.{ℕ, ◌≡◌, refl, Bool, true, false, ◌||◌, List, [], ◌∷◌, ◌++◌, reverse, ◌==◌}
use alpine_judge.Common.{nat_eq, list_eq, is_empty, if◌then◌else◌}
use alpine_judge.Common.Text.{Bytes, str}

abbrev push : ℕ → List Bytes → List Bytes
push c [] = (c ∷ []) ∷ []
push c (p ∷ ps) = (c ∷ p) ∷ ps

-- The parts of a path, empty ones too.
unfoldable pub split_slash : Bytes → List Bytes
split_slash [] = [] ∷ []
split_slash (c ∷ s) = if c == b'/' then [] ∷ split_slash s else push c (split_slash s)

-- One part is taken onto the parts so far, the last of which stands at the head: `.` and empty
-- parts are dropped, and `..` takes a part away, where there is one that is no `..` itself. At
-- the root there is none to take.
abbrev parent_of : Bool → List Bytes → List Bytes
parent_of rooted [] = if rooted then [] else str ".." ∷ []
parent_of rooted (top ∷ stack) = if top == str ".." then str ".." ∷ top ∷ stack else stack

resolve : Bool → List Bytes → Bytes → List Bytes
resolve rooted stack part =
    if part == [] || part == str "."
    then stack
    else if part == str ".."
    then parent_of rooted stack
    else part ∷ stack

resolve_all : Bool → List Bytes → List Bytes → List Bytes
unfolding resolve
resolve_all rooted stack [] = stack
resolve_all rooted stack (p ∷ ps) = resolve_all rooted (resolve rooted stack p) ps

-- The parts with a slash between each two.
unfoldable pub join_slash : List Bytes → Bytes
join_slash [] = []
join_slash (p ∷ []) = p
join_slash (p ∷ q ∷ ps) = p ++ b'/' ∷ join_slash (q ∷ ps)

abbrev is_rooted : Bytes → Bool
is_rooted [] = false
is_rooted (c ∷ s) = c == b'/'

render : Bool → List Bytes → Bytes
unfolding join_slash
render rooted stack = (if rooted then str "/" else []) ++ join_slash (reverse stack)

-- `filepath.Clean(path)`
unfoldable pub clean : Bytes → Bytes
unfolding render resolve_all split_slash
clean path =
    let out = render (is_rooted path) (resolve_all (is_rooted path) [] (split_slash path)) in
    if is_empty out then str "." else out

-- `filepath.Join(elems...)`: leading empty elements are skipped.
unfoldable pub join : List Bytes → Bytes
unfolding clean join_slash
join [] = []
join (e ∷ es) = if is_empty e then join es else clean (join_slash (e ∷ es))

join_runs :
    join (str "/workspace/testsets/ts1/" ∷ str "01.in" ∷ []) ≡ str "/workspace/testsets/ts1/01.in"
unfolding join
join_runs = refl

join_up : join (str "/tmp/runner/testsets/ts1/" ∷ str "../../x.in" ∷ []) ≡ str "/tmp/runner/x.in"
unfolding join
join_up = refl

-- `filepath.Dir(path)`: the cleaned text up to the last slash, that slash included.
up_to_slash : Bytes → Bytes
up_to_slash [] = []
up_to_slash (c ∷ s) = if c == b'/' then c ∷ s else up_to_slash s

unfoldable pub dir : Bytes → Bytes
unfolding clean up_to_slash
dir path = clean (reverse (up_to_slash (reverse path)))
