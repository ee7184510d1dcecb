-- ===== src/Cpio/Archive.antt =====
-- tools/linux/mkimage.py, class Cpio: the newc archive that becomes an initramfs.
use Prim.Native.Nat.{bit_or}
use techo5_dot.Prelude.{
  ℕ, zero, suc, ◌+◌, ◌%◌, List, [], ◌∷◌, ◌++◌, Bytes, codes, length, contains, ◌==◌, if◌then◌else◌,
  map,
}
use techo5_dot.Cpio.Hex.{format_08x}

abbrev pub newc : Bytes
newc = codes "070701"

abbrev pub trailer_name : Bytes
trailer_name = codes "TRAILER!!!"

-- `self.buf`, `self.ino` and `self.seen`.
pub record Cpio : Type 0 where
  pub buf : Bytes
  pub ino : ℕ
  pub seen : List Bytes

abbrev pub empty : Cpio
empty = record { buf = []; ino = 1; seen = [] }

-- The arguments of one `_entry` call.
pub record Entry : Type 0 where
  pub name : Bytes
  pub mode : ℕ
  pub content : Bytes
  pub nlink : ℕ
  pub rdev_major : ℕ
  pub rdev_minor : ℕ
  pub mtime : ℕ

-- The values of the header's thirteen fields.
abbrev pub header_values : ℕ → Entry → List ℕ
header_values ino e =
    ino
    ∷ e.mode
    ∷ 0
    ∷ 0
    ∷ e.nlink
    ∷ e.mtime
    ∷ length e.content
    ∷ 0
    ∷ 0
    ∷ e.rdev_major
    ∷ e.rdev_minor
    ∷ length (e.name ++ 0 ∷ [])
    ∷ 0
    ∷ []

-- `b"".join(b"%08X" % v for v in values)`
unfoldable pub join_fields : List ℕ → Bytes
join_fields [] = []
join_fields (v ∷ vs) = format_08x v ++ join_fields vs

unfoldable pub header : ℕ → Entry → Bytes
header ino e = newc ++ join_fields (header_values ino e)

-- `while self.buf.tell() % 4: self.buf.write(b"\0")`; at most three rounds are needed.
unfoldable pub pad_loop : ℕ → Bytes → Bytes
pad_loop zero buf = buf
pad_loop (suc fuel) buf =
    let more = pad_loop fuel (buf ++ 0 ∷ []) in if length buf % 4 == 0 then buf else more

unfoldable pub pad : Bytes → Bytes
unfolding pad_loop
pad buf = pad_loop 3 buf

-- `_entry`: the first entry of a name wins, a later one is dropped.
unfoldable pub entry : Entry → Cpio → Cpio
entry e c =
    let nameb = e.name ++ 0 ∷ [] in
    if contains c.seen e.name then c else record {
      buf = pad (pad (c.buf ++ (header c.ino e ++ nameb)) ++ e.content);
      ino = c.ino + 1;
      seen = e.name ∷ c.seen;
    }

abbrev pub s_ifchr : ℕ
s_ifchr = 0o020000

abbrev pub s_ifdir : ℕ
s_ifdir = 0o040000

abbrev pub s_ifblk : ℕ
s_ifblk = 0o060000

abbrev pub s_ifreg : ℕ
s_ifreg = 0o100000

abbrev pub s_iflnk : ℕ
s_iflnk = 0o120000

-- The defaults of `_entry`'s keyword arguments.
abbrev pub plain_entry : Bytes → ℕ → Entry
plain_entry name mode = record {
  name = name;
  mode = mode;
  content = [];
  nlink = 1;
  rdev_major = 0;
  rdev_minor = 0;
  mtime = 0;
}

-- The methods that add one entry.
pub data Call : Type 0 where
  dir : Bytes → ℕ → Call
  file : Bytes → Bytes → ℕ → Call
  symlink : Bytes → Bytes → Call
  chardev : Bytes → ℕ → ℕ → ℕ → Call
  blockdev : Bytes → ℕ → ℕ → ℕ → Call

unfoldable pub entry_of : Call → Entry
entry_of (dir name mode) = record (plain_entry name (bit_or s_ifdir mode)) { nlink = 2 }
entry_of (file name bytes mode) = record (plain_entry name (bit_or s_ifreg mode)) {
  content = bytes;
}
entry_of (symlink name target) = record (plain_entry name (bit_or s_iflnk 0o777)) {
  content = target;
}
entry_of (chardev name major minor mode) = record (plain_entry name (bit_or s_ifchr mode)) {
  rdev_major = major;
  rdev_minor = minor;
}
entry_of (blockdev name major minor mode) = record (plain_entry name (bit_or s_ifblk mode)) {
  rdev_major = major;
  rdev_minor = minor;
}

unfoldable pub run_entries : List Entry → Cpio → Cpio
run_entries [] c = c
run_entries (e ∷ es) c = run_entries es (entry e c)

-- A sequence of method calls.
unfoldable pub run : List Call → Cpio → Cpio
unfolding run_entries entry_of
run calls c = run_entries (map entry_of calls) c

-- `finish`
unfoldable pub finish : Cpio → Bytes
unfolding entry
finish c = (entry (plain_entry trailer_name 0) c).buf
