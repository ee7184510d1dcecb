-- ===== src/Rootfs/Root.antt =====
-- tools/linux/mkrootfs.py: class Root, its dictionary as a list in insertion order.
use techo5_dot.Prelude.{
  ℕ, zero, suc, List, [], ◌∷◌, ◌++◌, Bytes, codes, length, contains, same, starts_with,
  if◌then◌else◌, Bool, ◌&&◌, ◌||◌, take, drop, map, init, split, join, strip, range_from, is_empty,
  Option, none, some, Result, ok, err, ◌>>=◌, replace_crlf,
}
use techo5_dot.Cpio.Tree.{
  TarError, no_member, Member, Kind, directory, symbolic, regular, hard_link, character, other,
  get_member, read_member, permissions,
}

-- What `_info` and the data say of an entry.
pub data Node : Type 0 where
  folder : ℕ → Node
  content : ℕ → Bytes → Node
  link : Bytes → Node

pub record Root : Type 0 where
  pub entries : List (Bytes × Node)
  pub seen : List Bytes

abbrev pub new_root : Root
new_root = record { entries = []; seen = [] }

abbrev pub keys : List (Bytes × Node) → List Bytes
keys [] = []
keys ((k, _) ∷ es) = k ∷ keys es

-- `entries.get(name)`
unfoldable pub lookup : List (Bytes × Node) → Bytes → Option Node
lookup [] name = none
lookup ((k, node) ∷ es) name = if same k name then some node else lookup es name

-- `entries[name] = node`
unfoldable pub assign : Bytes → Node → List (Bytes × Node) → List (Bytes × Node)
assign name node [] = (name, node) ∷ []
assign name node ((k, old) ∷ es) =
    if same k name then (k, node) ∷ es else (k, old) ∷ assign name node es

-- `entries.pop(name, None)`
unfoldable pub pop : Bytes → List (Bytes × Node) → List (Bytes × Node)
pop name [] = []
pop name ((k, node) ∷ es) = if same k name then es else (k, node) ∷ pop name es

abbrev pub see : Bytes → List Bytes → List Bytes
see name seen = if contains seen name then seen else name ∷ seen

-- The names that `parents` hands to `dir`, the shortest first.
unfoldable pub prefixes : Bytes → List Bytes
prefixes name =
    let parts = init (split b'/' (strip (codes "/") name)) in
    map (λ i. join (codes "/") (take i parts)) (range_from 1 (length parts))

abbrev pub each : (Bytes → Root → Root) → List Bytes → Root → Root
each f [] r = r
each f (n ∷ ns) r = each f ns (f n r)

abbrev pub add_folder : Bytes → ℕ → Root → Root
add_folder name mode r = record {
  entries = assign name (folder mode) r.entries;
  seen = see name r.seen;
}

-- `dir` and `parents` call each other; the fuel bounds the depth, and the length of the name is
-- enough of it, since a prefix is shorter.
unfoldable pub dir_loop : ℕ → ℕ → Bytes → Root → Root
dir_loop zero mode name r = r
dir_loop (suc fuel) mode name r =
    let n = strip (codes "/") name in
    let above = each (dir_loop fuel 0o755) (prefixes n) r in
    if is_empty n || contains r.seen n then r else add_folder n mode above

-- `dir`
unfoldable pub dir : Bytes → ℕ → Root → Root
dir name mode r = dir_loop (suc (length name)) mode name r

-- `parents`
unfoldable pub parents : Bytes → Root → Root
parents name r = each (λ p. dir p 0o755) (prefixes name) r

-- What `file` and `symlink` do with a name.
unfoldable pub put : Bytes → Node → Root → Root
put name node r =
    let n = strip (codes "/") name in
    let above = parents n r in
    record { entries = assign n node (pop n above.entries); seen = see n above.seen }

-- `file`
abbrev pub file : Bytes → Bytes → ℕ → Root → Root
file name bytes mode = put name (content mode bytes)

-- `symlink`
abbrev pub symlink : Bytes → Bytes → Root → Root
symlink name target = put name (link target)

-- One member of a tar under its stripped name, by its kind.
unfoldable pub add_kind : List Member → Member → Bytes → Kind → Root → Result TarError Root
add_kind all m name directory r = ok (dir name (permissions m.mode) r)
add_kind all m name symbolic r = ok (symlink name m.linkname r)
add_kind all m name regular r = do
  bytes ← read_member m
  ok (file name bytes (permissions m.mode) r)
add_kind all m name hard_link r = elim (get_member all m.linkname) [
  | none ↦ err (no_member m.linkname)
  | some src ↦ do bytes ← read_member src; ok (file name bytes (permissions src.mode) r)
]
add_kind all m name character r = ok r
add_kind all m name other r = ok r

abbrev pub without_dot_slash : Bytes → Bytes
without_dot_slash name = if starts_with name (codes "./") then drop 2 name else name

-- One round of `for m in tf`.
unfoldable pub add_member : List Member → Bool → Member → Root → Result TarError Root
add_member all skip_dotfiles m r =
    if skip_dotfiles && starts_with (without_dot_slash m.name) (codes ".")
    then ok r
    else if is_empty (strip (codes "/") (without_dot_slash m.name))
    then ok r
    else add_kind all m (strip (codes "/") (without_dot_slash m.name)) m.kind r

unfoldable pub add_members : List Member → Bool → List Member → Root → Result TarError Root
add_members all skip_dotfiles [] r = ok r
add_members all skip_dotfiles (m ∷ ms) r = do
  r' ← add_member all skip_dotfiles m r
  add_members all skip_dotfiles ms r'

-- `add_tar`
unfoldable pub add_tar : List Member → Bool → Root → Result TarError Root
add_tar members skip_dotfiles r = add_members members skip_dotfiles members r

-- `add_dir`, over the files that `os.walk` finds, each with its path below the overlay.
unfoldable pub add_dir : List (Bytes × Bytes) → ℕ → Root → Root
add_dir [] mode_exec r = r
add_dir ((rel, bytes) ∷ files) mode_exec r = add_dir files mode_exec (
    if starts_with bytes (codes "#!")
    then file rel (replace_crlf bytes) mode_exec r
    else file rel bytes 0o644 r)

abbrev member_of : Bytes × Node → Bytes × Node
member_of (name, folder mode) = (name ++ codes "/", folder mode)
member_of (name, content mode bytes) = (name, content mode bytes)
member_of (name, link target) = (name, link target)

-- `finish`: the members of the tar that it writes.
unfoldable pub finish : Root → List (Bytes × Node)
finish r = map member_of r.entries
