-- ===== src/CommandLine/Packages.antt =====
-- tools/dotimage.py: with_member, on the members of a package's data.
use techo5_dot.Prelude.{
  codes, List, [], ◌∷◌, ◌++◌, Bytes, same, split, join, is_empty, starts_with, if◌then◌else◌, Bool,
  true, false, not, ◌&&◌, ◌||◌, Option, none, some, Result, ok, err,
}
use techo5_dot.Cpio.Tree.{Member, Kind, regular, hard_link}

-- `os.path.normpath`, part by part; the parts so far are in reverse.
abbrev pub up : Bool → List Bytes → List Bytes
up rooted [] = if rooted then [] else codes ".." ∷ []
up rooted (part ∷ parts) = if same part (codes "..") then codes ".." ∷ part ∷ parts else parts

abbrev pub with_part : Bool → Bytes → List Bytes → List Bytes
with_part rooted part parts =
    if is_empty part || same part (codes ".")
    then parts
    else if same part (codes "..")
    then up rooted parts
    else part ∷ parts

unfoldable pub norm_parts : Bool → List Bytes → List Bytes → List Bytes
norm_parts rooted parts [] = parts
norm_parts rooted parts (part ∷ rest) = norm_parts rooted (with_part rooted part parts) rest

-- Two slashes in front stay two; three are one.
abbrev pub root_of : Bytes → Bytes
root_of s =
    if starts_with s (codes "//") && not (starts_with s (codes "///"))
    then codes "//"
    else if starts_with s (codes "/")
    then codes "/"
    else []

-- Whether two names have one normal form.
unfoldable pub same_path : Bytes → Bytes → Bool
same_path a b =
    same (root_of a) (root_of b)
    && same (join (codes "/") (norm_parts (starts_with a (codes "/")) [] (split b'/' a)))
        (join (codes "/") (norm_parts (starts_with b (codes "/")) [] (split b'/' b)))

-- The last member under a name.
unfoldable pub last_under : Bytes → List Member → Option Member
last_under name [] = none
last_under name (m ∷ ms) = elim (last_under name ms) [
  | none ↦ if same_path m.name name then some m else none
  | some later ↦ some later
]

abbrev pub content_of : Option Member → Option Bytes
content_of none = none
content_of (some m) = m.content

-- What a member holds in the archive that is written, behind those before it: the new content, for a
-- hard link that of the last member before it with the name that it leads to, or what it held.
abbrev pub written_kind : Kind → List Member → Member → Member
written_kind hard_link before m = record m { content = content_of (last_under m.linkname before) }
written_kind _ before m = m

abbrev pub written : Bytes → Bytes → List Member → Member → Member
written member new before m =
    if same m.name member then record m { content = some new } else written_kind m.kind before m

-- The loop over the members.
unfoldable pub swap_members : Bytes → Bytes → List Member → List Member → List Member
swap_members member new before [] = before
swap_members member new before (m ∷ ms) =
    swap_members member new (before ++ written member new before m ∷ []) ms

-- `found`
unfoldable pub has_member : Bytes → List Member → Bool
has_member member [] = false
has_member member (m ∷ ms) = same m.name member || has_member member ms

abbrev pub is_regular : Kind → Bool
is_regular regular = true
is_regular _ = false

-- Whether every member of the name is a regular file.
unfoldable pub all_regular : Bytes → List Member → Bool
all_regular member [] = true
all_regular member (m ∷ ms) =
    (not (same m.name member) || is_regular m.kind) && all_regular member ms

-- The second is no outcome of the source, which writes an archive that cannot be read then.
pub data SwapError : Type 0 where
  nothing_to_replace : Bytes → SwapError
  not_regular : Bytes → SwapError

-- `with_member` on the data of the package, without the gzip that is around it; `new` is what the
-- file at its path holds.
unfoldable pub with_member : List Member → Bytes → Bytes → Result SwapError (List Member)
with_member members member new =
    if not (has_member member members)
    then err (nothing_to_replace member)
    else if all_regular member members
    then ok (swap_members member new [] members)
    else err (not_regular member)
