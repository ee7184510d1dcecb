-- ===== src/Boards/Matching.antt =====
-- tools/update-boot.py and tools/install-dot.py: the kernel that is chosen fits.
use techo5_dot.Prelude.{
  err, ℕ, ◌≡◌, refl, sym, ap, ◌∙◌, Bytes, same, same_iff, if◌then◌else◌, Bool, true, false,
  Bool-cases, inl, inr, Option, Option-cases, none, some, ok, arith,
}
use techo5_dot.Release.World.{no_kernel_61, Response, World, continue-eq_ok}
use techo5_dot.Release.Fetching.{Release}
use techo5_dot.Boards.Kernels.{
  Board, donut, board_name, kernel_61_version, kernel_board, kernel_for, kernel_named,
  kernel_61_asset,
}
use techo5_dot.Console.Unit.{includes}
use techo5_dot.Boards.Choice.{
  Switches, given, check_switches, wants_61, check_kernel, wanted_kernel, refuse_missing_61,
  choose_kernel,
}

module _ (serve : ℕ → Bytes → Response) (hash : Bytes → Bytes)
    (config_of : Bytes → World → Option Bytes) (exists_file : Bytes → World → Bool) where
  check_kernel-board :
      (board : Board) (kernel : Option Bytes) (w : World) {path : Bytes}
      → (check_kernel serve hash config_of exists_file board kernel w).0 ≡ ok (some path)
      → (exists_file path w ≡ true) × (kernel_board (config_of path w) ≡ some (board_name board))
  unfolding check_kernel
  check_kernel-board board none w h = absurd (ground arith)
  check_kernel-board board (some k) w {path} h = elim (Bool-cases (exists_file k w)) [
    | inr missing ↦ absurd (ground arith)
    | inl there ↦ elim (Option-cases (kernel_board (config_of k w))) [
      | inl unreadable ↦ absurd (ground arith)
      | inr (name, read) ↦
          let fits : same name (board_name board) ≡ true = ground arith in
          let e : k ≡ path = ground arith in
          rw (← e) (there, read ∙ ap some ((same_iff name (board_name board)).0 fits))
    ]
  ]

  -- A kernel that is chosen to go onto a unit, the release's or one that was given, is a file whose
  -- own configuration names the unit's board.
  pub choose_kernel-board :
      (rel : Release) (own : Option Bytes) (board : Board) (s : Switches) (linux61 : Bool)
      (w : World) {path : Bytes}
      → (choose_kernel serve hash config_of exists_file rel own board s linux61 w).0
        ≡ ok (some path)
      → (v : World) × (exists_file path v ≡ true)
        × (kernel_board (config_of path v) ≡ some (board_name board))
  unfolding choose_kernel
  choose_kernel-board rel own board s linux61 w h =
      let (k1, e1, h1, _) =
        continue-eq_ok (wanted_kernel serve hash config_of exists_file rel own board s linux61 w) _
          h in
      let (k2, e2, h2, _) =
        continue-eq_ok (refuse_missing_61 serve hash config_of exists_file s linux61 k1 _) _ h1 in
      let (there, fits) = check_kernel-board board k2 _ h2 in (_, there, fits)

  check_kernel-same :
      (board : Board) (kernel : Option Bytes) (w : World) {k : Option Bytes}
      → (check_kernel serve hash config_of exists_file board kernel w).0 ≡ ok k
      → kernel ≡ k
  unfolding check_kernel
  check_kernel-same board none w h = ground arith
  check_kernel-same board (some path) w {k} h = elim (Bool-cases (exists_file path w)) [
    | inr missing ↦ absurd (ground arith)
    | inl there ↦ elim (Option-cases (kernel_board (config_of path w))) [
      | inl unreadable ↦ absurd (ground arith)
      | inr (name, read) ↦ ground arith
    ]
  ]

  refuse_missing_61-eq_ok :
      (s : Switches) (k1 : Option Bytes) (w : World) {k2 : Option Bytes}
      → given s.kernel ≡ false
      → (refuse_missing_61 serve hash config_of exists_file s true k1 w).0 ≡ ok k2
      → (path : Bytes) × (k1 ≡ some path) × (k2 ≡ some path)
  unfolding refuse_missing_61
  refuse_missing_61-eq_ok s none w g h = absurd (ground arith)
  refuse_missing_61-eq_ok s (some path) w {k2} g h =
      (path, refl, (let e : k2 ≡ some path = ground arith in e))

  wanted_kernel-61 :
      (rel : Release) (own : Option Bytes) (board : Board) (s : Switches) (w : World) {path : Bytes}
      → given s.kernel ≡ false
      → (wanted_kernel serve hash config_of exists_file rel own board s true w).0 ≡ ok (some path)
      → (kernel_named serve hash rel (kernel_61_asset board) w).0 ≡ ok (some path)
  unfolding wanted_kernel kernel_for
  wanted_kernel-61 rel own board s w {path} g h = elim (Bool-cases s.no_bluetooth_kernel) [
    | inl kept ↦ absurd (ground arith)
    | inr new ↦
        (λ i.
          (if sym new i
            then (ok none, w)
            else if sym g i
            then (ok s.kernel, w)
            else kernel_named serve hash rel (kernel_61_asset board) w).0)
        ∙ h
  ]

  -- Where Linux 6.1 is wanted and no kernel is given, the tool stops or goes on with the release's
  -- 6.1 kernel for the board: it never falls back to the 3.18 kernel or to the unit's own.
  pub choose_kernel-61 :
      (rel : Release) (own : Option Bytes) (board : Board) (s : Switches) (w : World)
      {kernel : Option Bytes}
      → given s.kernel ≡ false
      → (choose_kernel serve hash config_of exists_file rel own board s true w).0 ≡ ok kernel
      → (path : Bytes) × (kernel ≡ some path)
        × ((kernel_named serve hash rel (kernel_61_asset board) w).0 ≡ ok (some path))
  unfolding choose_kernel
  choose_kernel-61 rel own board s w g h =
      let (k1, e1, h1, _) =
        continue-eq_ok (wanted_kernel serve hash config_of exists_file rel own board s true w) _
          h in
      let (k2, e2, h2, _) =
        continue-eq_ok (refuse_missing_61 serve hash config_of exists_file s true k1 _) _ h1 in
      let (path, is_path, kept) = refuse_missing_61-eq_ok s k1 _ g e2 in
      (
        path,
        sym (check_kernel-same board k2 _ h2) ∙ kept,
        wanted_kernel-61 rel own board s w g (e1 ∙ ap ok is_path),
      )

  -- The Echo Dot 3 keeps its own kernel: with switches that pass the checks none is chosen for it.
  pub choose_kernel-donut :
      (rel : Release) (own : Option Bytes) (s : Switches) (release : Bytes) (w : World)
      → check_switches donut s ≡ ok tt
      → choose_kernel serve hash config_of exists_file rel own donut s (wants_61 donut s release) w
        ≡ (ok none, w)
  unfolding choose_kernel check_switches wanted_kernel kernel_for refuse_missing_61 check_kernel
      wants_61
  choose_kernel-donut rel own s release w h = ground arith

  -- With switches that pass the checks, --no-bluetooth-kernel takes the unit's own kernel where the
  -- running version is not the board's 6.1 kernel's, and stops `update-boot.py` where it is, with the
  -- words that the release has no 6.1 kernel, whatever the release has.
  pub choose_kernel-no_bluetooth_kernel :
      (rel : Release) (own : Option Bytes) (board : Board) (s : Switches) (release version : Bytes)
      (w : World)
      → check_switches board s ≡ ok tt
      → given s.kernel ≡ false
      → s.no_bluetooth_kernel ≡ true
      → kernel_61_version board ≡ some version
      → choose_kernel serve hash config_of exists_file rel own board s (wants_61 board s release) w
        ≡ (if includes release version then err no_kernel_61 else ok none, w)
  unfolding choose_kernel wanted_kernel refuse_missing_61 check_kernel wants_61 check_switches
  choose_kernel-no_bluetooth_kernel rel own board s release version w checked g kept runs =
      elim (Bool-cases (includes release version)) [
        | inl new ↦ ground arith
        | inr old ↦ ground arith
      ]
