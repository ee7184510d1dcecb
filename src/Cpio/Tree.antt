-- ===== src/Cpio/Tree.antt =====
-- tools/linux/mkimage.py: `add_parents` and `add_tar` of class Cpio.
use Prim.Native.Nat.{bit_and}
use techo5_dot.Prelude.{
  ℕ, List, [], ◌∷◌, Bytes, codes, length, contains, same, starts_with, if◌then◌else◌, Bool, true,
  false, ◌&&◌, take, map, init, split, join, strip, lstrip, rstrip, range_from, is_empty, Option,
  none, some, Result, ok, err, ◌>>=◌,
}
use techo5_dot.Cpio.Archive.{Cpio, Call, dir, file, symlink, chardev, run}

-- The calls of `add_parents`: one directory for each proper prefix of the path, the shortest first.
unfoldable pub parent_dirs : Bytes → List Call
parent_dirs name =
    let parts = init (split b'/' (strip (codes "/") name)) in
    map (λ i. dir (join (codes "/") (take i parts)) 0o755) (range_from 1 (length parts))

unfoldable pub add_parents : Bytes → Cpio → Cpio
unfolding parent_dirs
add_parents name c = run (parent_dirs name) c

-- A member of a tar file: `isdir`, `issym`, `isfile`, `islnk`, `ischr`, and the kinds that no
-- branch takes.
pub data Kind : Type 0 where
  directory symbolic regular hard_link character other : Kind

-- `content` is what `tf.extractfile(m).read()` returns, `none` where it raises.
pub record Member : Type 0 where
  pub name : Bytes
  pub kind : Kind
  pub mode : ℕ
  pub linkname : Bytes
  pub content : Option Bytes
  pub devmajor : ℕ
  pub devminor : ℕ

-- The uncaught exceptions of the walk over a tar file.
pub data TarError : Type 0 where
  no_member : Bytes → TarError
  not_a_file : Bytes → TarError

-- `tf.getmember(name)`: the last member of that name.
unfoldable pub get_member : List Member → Bytes → Option Member
get_member [] name = none
get_member (m ∷ ms) name = elim (get_member ms name) [
  | some later ↦ some later
  | none ↦ if same m.name (rstrip (codes "/") name) then some m else none
]

unfoldable pub read_member : Member → Result TarError Bytes
read_member m = elim m.content [ none ↦ err (not_a_file m.name) | some bytes ↦ ok bytes ]

abbrev pub permissions : ℕ → ℕ
permissions mode = bit_and mode 0o7777

-- The call for one member under its stripped name, by the member's kind.
unfoldable pub member_call : List Member → Member → Bytes → Kind → Result TarError (List Call)
member_call all m name directory = ok (dir name (permissions m.mode) ∷ [])
member_call all m name symbolic = ok (symlink name m.linkname ∷ [])
member_call all m name regular = do
  bytes ← read_member m
  ok (file name bytes (permissions m.mode) ∷ [])
member_call all m name hard_link = elim (get_member all m.linkname) [
  | none ↦ err (no_member m.linkname)
  | some src ↦ do bytes ← read_member src; ok (file name bytes (permissions src.mode) ∷ [])
]
member_call all m name character = ok (chardev name m.devmajor m.devminor (permissions m.mode) ∷ [])
member_call all m name other = ok []

abbrev pub is_directory : Kind → Bool
is_directory directory = true
is_directory _ = false

-- `m.name.lstrip("./").strip("/")`
unfoldable pub member_name : Bytes → Bytes
member_name name = strip (codes "/") (lstrip (codes "./") name)

-- One round of `for m in tf`.
unfoldable pub add_member : List Member → Bool → Member → Cpio → Result TarError Cpio
add_member all skip_dotfiles m c =
    let name = member_name m.name in
    if is_empty name
    then ok c
    else if skip_dotfiles && starts_with name (codes ".")
    then ok c
    else if is_directory m.kind && contains c.seen name
    then ok c
    else do calls ← member_call all m name m.kind; ok (run calls c)

unfoldable pub add_members : List Member → Bool → List Member → Cpio → Result TarError Cpio
add_members all skip_dotfiles [] c = ok c
add_members all skip_dotfiles (m ∷ ms) c = do
  c' ← add_member all skip_dotfiles m c
  add_members all skip_dotfiles ms c'

-- `add_tar`
unfoldable pub add_tar : List Member → Bool → Cpio → Result TarError Cpio
unfolding add_members
add_tar members skip_dotfiles c = add_members members skip_dotfiles members c
