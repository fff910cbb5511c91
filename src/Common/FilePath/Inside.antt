-- ===== src/Common/FilePath/Inside.antt =====
-- Where a joined path leads: under its directory, as long as what is joined has no part `..`.
use mathlib.Core.List.{append_assoc, reverse-append, reverse-cons, reverse-reverse}
use alpine_judge.Common.{ℕ, ◌≡◌, ◌≢◌, refl, ap, ◌∙◌, Bool, false, List, [], ◌∷◌, ◌++◌, reverse}
use alpine_judge.Common.{nat_eq, list_eq, is_empty, if◌then◌else◌, arith, All}
use alpine_judge.Common.Text.{Bytes, str}
use alpine_judge.Common.FilePath.{
  push, split_slash, resolve, resolve_all, join_slash, is_rooted, render, join,
}

-- A part that names a file or a folder: it holds no slash, and is neither empty nor a dot or two.
abbrev pub NoSlash : Bytes → Type 0
NoSlash [] = Unit
NoSlash (c ∷ s) = (c ≢ b'/') × NoSlash s

abbrev pub IsName : Bytes → Type 0
IsName p = (p ≢ []) × (p ≢ str ".") × (p ≢ str "..")

split_slash-ne-nil : (s : Bytes) → split_slash s ≢ []
unfolding split_slash
split_slash-ne-nil [] = ground arith
split_slash-ne-nil (d ∷ s) = ground (arith, split_slash-ne-nil s)

-- A slash between two texts separates their parts.
split_slash-append : (a b : Bytes) → split_slash (a ++ b'/' ∷ b) ≡ split_slash a ++ split_slash b
unfolding split_slash
split_slash-append [] b = refl
split_slash-append (c ∷ a) b = ground (arith, split_slash-append a b, split_slash-ne-nil a)

split_slash_of_NoSlash : (p : Bytes) → NoSlash p → split_slash p ≡ p ∷ []
unfolding split_slash
split_slash_of_NoSlash [] _ = refl
split_slash_of_NoSlash (c ∷ p) (ne, h) = ground (arith, split_slash_of_NoSlash p h)

resolve_all-append :
    (rooted : Bool) (stack ps qs : List Bytes)
    → resolve_all rooted stack (ps ++ qs) ≡ resolve_all rooted (resolve_all rooted stack ps) qs
unfolding resolve_all
resolve_all-append rooted stack [] qs = refl
resolve_all-append rooted stack (p ∷ ps) qs =
    resolve_all-append rooted (resolve rooted stack p) ps qs

resolve_of_IsName :
    (rooted : Bool) (stack : List Bytes) (p : Bytes) → IsName p → resolve rooted stack p ≡ p ∷ stack
unfolding resolve
resolve_of_IsName rooted stack p (a, b, c) =
    ground
      (arith, list_eq.same_iff p [], list_eq.same_iff p (str "."), list_eq.same_iff p (str ".."))

resolve_all_of_IsName :
    (rooted : Bool) (stack ps : List Bytes)
    → All IsName ps
    → resolve_all rooted stack ps ≡ reverse ps ++ stack
unfolding resolve_all
resolve_all_of_IsName rooted stack [] _ = refl
resolve_all_of_IsName rooted stack (p ∷ ps) (h, hs) =
    ap (λ s. resolve_all rooted s ps) (resolve_of_IsName rooted stack p h)
    ∙ (resolve_all_of_IsName rooted (p ∷ stack) ps hs ∙ simp (reverse-cons, append_assoc))

-- The parts of `dir`, the last first, once dots are resolved.
parts : Bytes → List Bytes
parts dir = resolve_all (is_rooted dir) [] (split_slash dir)

-- The cleaned directory with the slash that follows it, where one is written.
pub base : Bytes → Bytes
base dir = render (is_rooted dir) (parts dir) ++ (if is_empty (parts dir) then [] else str "/")

join_slash-push : (c : ℕ) (ps : List Bytes) → join_slash (push c ps) ≡ c ∷ join_slash ps
unfolding join_slash
join_slash-push c [] = refl
join_slash-push c (p ∷ []) = refl
join_slash-push c (p ∷ q ∷ ps) = refl

join_slash-nil : (ps : List Bytes) → ps ≢ [] → join_slash ([] ∷ ps) ≡ b'/' ∷ join_slash ps
unfolding join_slash
join_slash-nil [] h = absurd (h refl)
join_slash-nil (p ∷ ps) h = refl

join_slash-split_slash : (s : Bytes) → join_slash (split_slash s) ≡ s
unfolding split_slash
join_slash-split_slash [] = unfold join_slash in refl
join_slash-split_slash (c ∷ s) = ground (
  arith,
  join_slash-nil (split_slash s) (split_slash-ne-nil s),
  join_slash-push c (split_slash s),
  join_slash-split_slash s,
)

join_slash-append :
    (xs : List Bytes) (y : Bytes) (ys : List Bytes)
    → join_slash (xs ++ y ∷ ys)
      ≡ (join_slash xs ++ (if is_empty xs then [] else str "/")) ++ join_slash (y ∷ ys)
unfolding join_slash
join_slash-append [] y ys = refl
join_slash-append (x ∷ []) y ys = simp append_assoc
join_slash-append (x ∷ x' ∷ xs) y ys =
    ap (λ r. x ++ b'/' ∷ r) (join_slash-append (x' ∷ xs) y ys) ∙ simp append_assoc

is_rooted-append : (dir s : Bytes) → dir ≢ [] → is_rooted (dir ++ s) ≡ is_rooted dir
is_rooted-append [] s h = absurd (h refl)
is_rooted-append (c ∷ dir) s h = refl

is_empty-append : (xs : List Bytes) (y : Bytes) (ys : List Bytes) → is_empty (xs ++ y ∷ ys) ≡ false
is_empty-append [] y ys = refl
is_empty-append (x ∷ xs) y ys = refl

is_empty-reverse : (xs : List Bytes) → is_empty (reverse xs) ≡ is_empty xs
is_empty-reverse [] = refl
is_empty-reverse (x ∷ xs) = rw reverse-cons (is_empty-append (reverse xs) x [])

is_empty-append_right : (s t : Bytes) → is_empty t ≡ false → is_empty (s ++ t) ≡ false
is_empty-append_right [] t h = h
is_empty-append_right (c ∷ s) t h = refl

-- What the parts of `rel` add to the parts of `dir`, rendered.
render-append :
    (rooted : Bool) (stack ps : List Bytes)
    → ps ≢ []
    → render rooted (reverse ps ++ stack)
      ≡ (render rooted stack ++ (if is_empty stack then [] else str "/")) ++ join_slash ps
unfolding render
render-append rooted stack [] h = absurd (h refl)
render-append rooted stack (p ∷ ps) h =
    rw (reverse-append, reverse-reverse, join_slash-append (reverse stack) p ps, is_empty-reverse)
      (simp append_assoc)

names-ne-nil : (rel : Bytes) → All IsName (split_slash rel) → is_empty rel ≡ false
unfolding split_slash
names-ne-nil [] names = absurd (names.0.0 refl)
names-ne-nil (c ∷ rel) names = refl

-- The parts of the joined path, and their rendering.
render-joined :
    (dir rel : Bytes)
    → All IsName (split_slash rel)
    → render (is_rooted dir) (resolve_all (is_rooted dir) [] (split_slash (dir ++ b'/' ∷ rel)))
      ≡ base dir ++ rel
unfolding base parts
render-joined dir rel names =
    rw
      (
        split_slash-append,
        resolve_all-append,
        resolve_all_of_IsName (is_rooted dir) (parts dir) (split_slash rel) names,
      )
      (render-append (is_rooted dir) (parts dir) (split_slash rel) (split_slash-ne-nil rel)
        ∙ ap (λ t. base dir ++ t) (join_slash-split_slash rel))

-- Joining `dir` with a relative path that has no empty part, no `.` and no `..` appends the path
-- to the cleaned directory: the result lies under it, and different paths stay different.
pub join-eq-append :
    (dir rel : Bytes)
    → dir ≢ []
    → All IsName (split_slash rel)
    → join (dir ∷ rel ∷ []) ≡ base dir ++ rel
unfolding join
join-eq-append [] rel h _ = absurd (h refl)
join-eq-append (c ∷ dir) rel h names = rw (
  render-joined (c ∷ dir) rel names,
  is_empty-append_right (base (c ∷ dir)) rel (names-ne-nil rel names),
)

-- The same for one name.
pub join-eq-append_name :
    (dir name : Bytes)
    → dir ≢ []
    → NoSlash name
    → IsName name
    → join (dir ∷ name ∷ []) ≡ base dir ++ name
join-eq-append_name dir name h plain is_name =
    join-eq-append dir name h (rw (split_slash_of_NoSlash name plain) (is_name, tt))
