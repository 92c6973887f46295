-- ===== src/Base/Paths.antt =====
-- What the program uses of Go's package `path`: `Clean` and `Join`.
use Prim.Native.Nat.{ℕ}
use mathlib.Core.Bool.{Bool, false, ◌||◌}
use mathlib.Core.List.{List, [], ◌∷◌, ◌++◌, reverse}
use beckn_onix.Base.Tests.{eqb, if◌then◌else◌}
use beckn_onix.Base.Strings.{Str, str, ◌==◌, split}

abbrev slash : ℕ
slash = b'/'

abbrev is_rooted : Str → Bool
is_rooted [] = false
is_rooted (c ∷ s) = eqb c slash

-- The elements in reverse, after one more: "" and "." go, ".." takes the last one away, and stays
-- where a path that is not rooted has none.
resolve : Bool → List Str → Str → List Str
resolve rooted [] part =
    if part == [] || part == str "."
    then []
    else if part == str ".."
    then (if rooted then [] else part ∷ [])
    else part ∷ []
resolve rooted (last ∷ stack) part =
    if part == [] || part == str "."
    then last ∷ stack
    else if part == str ".."
    then (if last == str ".." then part ∷ last ∷ stack else stack)
    else part ∷ last ∷ stack

resolve_all : Bool → List Str → List Str → List Str
resolve_all rooted stack [] = stack
resolve_all rooted stack (part ∷ parts) = resolve_all rooted (resolve rooted stack part) parts

with_slashes : List Str → Str
with_slashes [] = []
with_slashes (p ∷ []) = p
with_slashes (p ∷ q ∷ rest) = p ++ (slash ∷ with_slashes (q ∷ rest))

or_dot : Str → Str
or_dot [] = str "."
or_dot (c ∷ s) = c ∷ s

-- `path.Clean(p)`
unfoldable pub clean : Str → Str
unfolding resolve_all resolve with_slashes or_dot
clean p =
    let parts = with_slashes (reverse (resolve_all (is_rooted p) [] (split slash p))) in
    if is_rooted p then slash ∷ parts else or_dot parts

-- `path.Join(a, b)`
unfoldable pub join_path : Str → Str → Str
unfolding clean
join_path [] [] = []
join_path [] (c ∷ b) = clean (c ∷ b)
join_path (c ∷ a) b = clean ((c ∷ a) ++ (slash ∷ b))
