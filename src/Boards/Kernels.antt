-- ===== src/Boards/Kernels.antt =====
-- tools/dotimage.py: the boards, `kernel_board`, `kernel_is_61` and `DotRelease.kernel_for`.
use techo5_dot.Prelude.{
  ℕ, List, [], ◌∷◌, ◌++◌, Bytes, codes, same, starts_with, split, drop, length, contains, leb, ◌==◌,
  if◌then◌else◌, is_empty, Bool, true, false, ◌&&◌, ◌||◌, Option, none, some,
}
use techo5_dot.Release.World.{Response, M, ◌>>=◌, return}
use techo5_dot.Release.Fetching.{Release, signed, asset}

pub data Board : Type 0 where
  biscuit radar donut : Board

abbrev pub board_name : Board → Bytes
board_name biscuit = codes "biscuit"
board_name radar = codes "radar"
board_name donut = codes "donut"

-- `BOARD_TYPE_IDS.get(id)`
unfoldable pub board_of_id : Bytes → Option Board
board_of_id id =
    if same id (codes "A3S5BH2HU6VAYF")
    then some biscuit
    else if same id (codes "A7WXQPH584YP")
    then some radar
    else if same id (codes "A32DOYMUN6DTXA")
    then some donut
    else none

-- `KERNEL_ASSETS.get(board)`
abbrev pub kernel_asset : Board → Option Bytes
kernel_asset biscuit = some (codes "techo5-dot-kernel-bt.zImage-dtb")
kernel_asset radar = some (codes "techo5-dot-kernel-bt-radar.zImage-dtb")
kernel_asset donut = none

-- `KERNEL_61_ASSETS.get(board)`
abbrev pub kernel_61_asset : Board → Option Bytes
kernel_61_asset radar = some (codes "techo5-dot-kernel-61-radar.zImage-dtb")
kernel_61_asset _ = none

-- `KERNEL_61_VERSIONS.get(board)`
abbrev pub kernel_61_version : Board → Option Bytes
kernel_61_version radar = some (codes "-techo5-radar")
kernel_61_version _ = none

abbrev is_project_code : ℕ → Bool
is_project_code c = leb b'a' c && leb c b'z' || leb b'0' c && leb c b'9' || c == b'_'

abbrev cons_some : ℕ → Option Bytes → Option Bytes
cons_some c none = none
cons_some c (some s) = some (c ∷ s)

-- `([a-z0-9_]*)"$` at the start of a line.
unfoldable pub quoted_name : Bytes → Option Bytes
quoted_name [] = none
quoted_name (c ∷ cs) =
    let rest = quoted_name cs in
    if c == 34
    then if is_empty cs then some [] else none
    else if is_project_code c
    then cons_some c rest
    else none

abbrev pub project_key : Bytes
project_key = codes "CONFIG_ARCH_MTK_PROJECT=\""

abbrev non_empty : Option Bytes → Option Bytes
non_empty none = none
non_empty (some s) = if is_empty s then none else some s

unfoldable pub project_of_line : Bytes → Option Bytes
project_of_line line =
    if starts_with line project_key
    then non_empty (quoted_name (drop (length project_key) line))
    else none

unfoldable pub project_of_lines : List Bytes → Option Bytes
project_of_lines [] = none
project_of_lines (line ∷ lines) = elim (project_of_line line) [
  | some name ↦ some name
  | none ↦ project_of_lines lines
]

-- `kernel_board`, from the config that `kernel_config` reads.
unfoldable pub kernel_board : Option Bytes → Option Bytes
kernel_board none = none
kernel_board (some config) = project_of_lines (split 10 config)

abbrev version_line : Bytes → Bytes
version_line want = codes "CONFIG_LOCALVERSION=\"" ++ (want ++ 34 ∷ [])

-- `kernel_is_61`
unfoldable pub kernel_is_61 : Option Bytes → Board → Bool
kernel_is_61 none board = false
kernel_is_61 (some config) board = elim (kernel_61_version board) [
  | none ↦ false
  | some want ↦ contains (split 10 config) (version_line want)
]

module _ (serve : ℕ → Bytes → Response) (hash : Bytes → Bytes) where
  -- A kernel of the release by its file's name, or none where the manifest does not name it.
  abbrev pub kernel_named : Release → Option Bytes → M (Option Bytes)
  kernel_named rel none = return none
  kernel_named rel (some name) = elim (signed rel name) [
    | none ↦ return none
    | some _ ↦ do path ← asset serve hash rel name; return (some path)
  ]

  -- `kernel_for`; `kernel` is the biscuit kernel that `__init__` has downloaded.
  unfoldable pub kernel_for : Release → Option Bytes → Board → Bool → M (Option Bytes)
  kernel_for rel kernel board true = kernel_named rel (kernel_61_asset board)
  kernel_for rel kernel biscuit false = return kernel
  kernel_for rel kernel donut false = return none
  kernel_for rel kernel radar false = kernel_named rel (kernel_asset radar)
