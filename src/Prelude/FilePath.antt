-- ===== src/Prelude/FilePath.antt =====
-- Go's `path/filepath` on Unix, as far as the program uses it.
use jira_cdc_git.Prelude.Lists.{select}
use jira_cdc_git.Prelude.Tests.{if◌then◌else◌, ◌==◌}
use jira_cdc_git.Prelude.Text.{Text, codes, text_eq}
use Prim.Native.Nat.{ℕ}
use mathlib.Core.Path.{◌≡◌, refl}
use mathlib.Core.Bool.{Bool, true, false, not, ◌&&◌}
use mathlib.Core.List.{List, [], ◌∷◌, ◌++◌}

-- `strings.Split(s, sep)` at a one-byte separator.
unfoldable pub split : ℕ → Text → List Text
split sep [] = [] ∷ []
split sep (c ∷ s) =
    let rest = split sep s in
    if c == sep then [] ∷ rest else elim rest [ [] ↦ (c ∷ []) ∷ [] | w ∷ ws ↦ (c ∷ w) ∷ ws ]

-- `strings.Join(parts, sep)`.
unfoldable pub join_with : Text → List Text → Text
join_with sep [] = []
join_with sep (w ∷ []) = w
join_with sep (w ∷ v ∷ ws) = w ++ (sep ++ join_with sep (v ∷ ws))

-- One component of a path on the stack of those kept, the last first.
unfoldable pub push_component : Bool → List Text → Text → List Text
push_component rooted stack [] = stack
push_component rooted stack (c ∷ w) =
    if text_eq (c ∷ w) (codes ".")
    then stack
    else if text_eq (c ∷ w) (codes "..")
    then elim stack [
      | [] ↦ if rooted then [] else codes ".." ∷ []
      | top ∷ below ↦ if text_eq top (codes "..") then codes ".." ∷ top ∷ below else below
    ]
    else (c ∷ w) ∷ stack

unfoldable pub push_all : Bool → List Text → List Text → List Text
push_all rooted stack [] = stack
push_all rooted stack (w ∷ ws) = push_all rooted (push_component rooted stack w) ws

-- `is_rooted` and the rendering of a stack of components.
abbrev pub is_rooted : Text → Bool
is_rooted [] = false
is_rooted (c ∷ _) = c == b'/'

unfoldable pub path_of_stack : List Text → Text
path_of_stack [] = []
path_of_stack (w ∷ []) = w
path_of_stack (w ∷ v ∷ ws) = path_of_stack (v ∷ ws) ++ (b'/' ∷ w)

unfoldable pub render : Bool → List Text → Text
unfolding path_of_stack
render true stack = b'/' ∷ path_of_stack stack
render false [] = codes "."
render false (w ∷ ws) = path_of_stack (w ∷ ws)

-- `filepath.Clean(path)`.
unfoldable pub clean : Text → Text
unfolding render push_all push_component split text_eq
clean p = render (is_rooted p) (push_all (is_rooted p) [] (split b'/' p))

abbrev is_empty : Text → Bool
is_empty [] = true
is_empty (_ ∷ _) = false

-- `filepath.Join(elem...)`: the empty elements are dropped.
unfoldable pub join : List Text → Text
unfolding clean join_with
join ws = elim (select (λ w. not (is_empty w)) ws) [
  | [] ↦ []
  | v ∷ vs ↦ clean (join_with (codes "/") (v ∷ vs))
]

-- `filepath.Ext(path)`: from the last dot after the last slash on.
ext_from : Text → Text → Text
ext_from found [] = found
ext_from found (c ∷ s) = ext_from (if c == b'.' then c ∷ s else if c == b'/' then [] else found) s

unfoldable pub ext : Text → Text
unfolding ext_from
ext p = ext_from [] p

join_test :
    (join (codes "/repo//" ∷ codes "" ∷ codes "./a/../projects" ∷ []) ≡ codes "/repo/projects")
    × (join (codes "" ∷ []) ≡ [])
    × (clean (codes "../../x") ≡ codes "../../x")
    × (clean [] ≡ codes ".")
    × (ext (codes "a.b/c.tar.yaml") ≡ codes ".yaml")
    × (ext (codes "a.b/c") ≡ [])
unfolding join ext
join_test = (refl, refl, refl, refl, refl, refl)

-- Trailing slashes are cut, then what stands before the last slash.
drop_slashes : Text → Text
drop_slashes [] = []
drop_slashes (c ∷ s) =
    let rest = drop_slashes s in if (c == b'/') && is_empty rest then [] else c ∷ rest

last_element : Text → Text → Text
last_element found [] = found
last_element found (c ∷ s) = last_element (if c == b'/' then s else found) s

abbrev base_of : Text → Text
base_of [] = codes "/"
base_of (c ∷ s) =
    let cut = drop_slashes (c ∷ s) in if is_empty cut then codes "/" else last_element cut cut

-- `filepath.Base(path)`.
unfoldable pub base : Text → Text
unfolding drop_slashes last_element
base [] = codes "."
base (c ∷ s) = base_of (c ∷ s)

base_test :
    (base (codes "/repo/projects/P/issues/P-1.yaml") ≡ codes "P-1.yaml")
    × (base (codes "a/b//") ≡ codes "b")
    × (base (codes "//") ≡ codes "/")
    × (base [] ≡ codes ".")
unfolding base
base_test = (refl, refl, refl, refl)
