-- ===== src/Boards/Choice.antt =====
-- tools/update-boot.py and tools/install-dot.py: which board it is, and which kernel goes on it.
use techo5_dot.Prelude.{
  ℕ, Bytes, codes, same, starts_with, is_empty, if◌then◌else◌, Bool, true, false, not, ◌&&◌, ◌||◌,
  Option, none, some, Result, ok, err, ◌>>◌, guard,
}
use techo5_dot.Console.Unit.{includes}
use techo5_dot.Release.World.{Response, World, M, continue, no_kernel_61, no_kernel_at, other_board}
use techo5_dot.Release.Fetching.{Release}
use techo5_dot.Boards.Kernels.{
  Board, biscuit, radar, donut, board_name, board_of_id, kernel_61_version, kernel_board,
  kernel_for,
}

-- Why a board, or the switches for it, are refused.
pub data Refused : Type 0 where
  not_a_dot : Refused
  own_kernel_only : Refused
  no_linux_61 : Refused
  kernel_chosen_twice : Refused
  not_root : Refused
  ids_disagree : Refused

-- `--kernel` (made absolute), `--no-bluetooth-kernel`, `--linux-61` and `--linux-318`.
pub record Switches : Type 0 where
  pub kernel : Option Bytes
  pub no_bluetooth_kernel : Bool
  pub linux_61 : Bool
  pub linux_318 : Bool

abbrev pub given : Option Bytes → Bool
given none = false
given (some s) = not (is_empty s)

abbrev pub is_donut : Board → Bool
is_donut donut = true
is_donut _ = false

abbrev pub has_61 : Board → Bool
has_61 board = elim (kernel_61_version board) [ none ↦ false | some _ ↦ true ]

-- The checks of the switches against the board, the same in both programs.
unfoldable pub check_switches : Board → Switches → Result Refused (Unit {0})
check_switches board s = do
  guard (not (is_donut board && (given s.kernel || s.no_bluetooth_kernel))) own_kernel_only
  guard (not ((s.linux_61 || s.linux_318) && not (has_61 board))) no_linux_61
  guard (not ((s.linux_61 || s.linux_318) && (given s.kernel || s.no_bluetooth_kernel)))
      kernel_chosen_twice

-- `update-boot.py`: the board by its device type id.
unfoldable pub board_over_ssh : Bytes → Switches → Result Refused Board
board_over_ssh type_id s = elim (board_of_id type_id) [
  | none ↦ err not_a_dot
  | some board ↦ check_switches board s >> ok board
]

-- `install-dot.py`: the board by the build's properties.
unfoldable pub board_of_product : Bytes → Option Board
board_of_product product =
    if includes product (codes "radar")
    then some radar
    else if includes product (codes "biscuit")
    then some biscuit
    else if includes product (codes "donut")
    then some donut
    else none

abbrev pub agrees : Bytes → Board → Bool
agrees type_id board = elim (board_of_id type_id) [
  | none ↦ false
  | some other ↦ same (board_name other) (board_name board)
]

-- `install-dot.py`, from the product's names to the check of the device type id.
unfoldable pub board_over_adb : Bytes → Bytes → Bytes → Switches → Result Refused Board
board_over_adb product ident type_id s = elim (board_of_product product) [
  | none ↦ err not_a_dot
  | some board ↦ do
    check_switches board s
    guard (starts_with ident (codes "uid=0")) not_root
    guard (is_empty type_id || agrees type_id board) ids_disagree
    ok board
]

abbrev runs_61 : Option Bytes → Bytes → Bool
runs_61 none release = false
runs_61 (some version) release = includes release version

-- `update-boot.py`: whether the 6.1 kernel is wanted, from the running kernel's version.
unfoldable pub wants_61 : Board → Switches → Bytes → Bool
wants_61 board s release =
    s.linux_61 || runs_61 (kernel_61_version board) release && not s.linux_318

-- `config_of path w` is what `kernel_config` reads of a file, `exists path w` whether it is there.
module _ (serve : ℕ → Bytes → Response) (hash : Bytes → Bytes)
    (config_of : Bytes → World → Option Bytes) (exists_file : Bytes → World → Bool) where
  unfoldable pub check_kernel : Board → Option Bytes → M (Option Bytes)
  check_kernel board none w = (ok none, w)
  check_kernel board (some path) w =
      if not (exists_file path w)
      then (err (no_kernel_at path), w)
      else elim (kernel_board (config_of path w)) [
        | none ↦ (err (other_board none), w)
        | some name ↦
            if same name (board_name board)
            then (ok (some path), w)
            else (err (other_board (some name)), w)
      ]

  -- The kernel before it is checked.
  unfoldable pub wanted_kernel : Release → Option Bytes → Board → Switches → Bool → M (Option Bytes)
  wanted_kernel rel own board s linux61 w =
      if s.no_bluetooth_kernel
      then (ok none, w)
      else if given s.kernel
      then (ok s.kernel, w)
      else kernel_for serve hash rel own board linux61 w

  unfoldable pub refuse_missing_61 : Switches → Bool → Option Bytes → M (Option Bytes)
  refuse_missing_61 s linux61 (some path) w = (ok (some path), w)
  refuse_missing_61 s linux61 none w =
      if linux61 && not (given s.kernel) then (err no_kernel_61, w) else (ok none, w)

  -- Both programs; `linux61` is `--linux-61` in `install-dot.py`, and `wants_61` in the other.
  unfoldable pub choose_kernel : Release → Option Bytes → Board → Switches → Bool → M (Option Bytes)
  choose_kernel rel own board s linux61 w =
      continue (wanted_kernel rel own board s linux61 w) λ kernel w1.
        continue (refuse_missing_61 s linux61 kernel w1) λ kernel' w2. check_kernel board kernel' w2
