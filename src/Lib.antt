-- ===== src/Lib.antt =====
-- TECHO5 Dot's host tools: the Python programs under tools/ that build an image for an Echo Dot,
-- check what they download, and put it on the unit.
--
-- The parts and the files that model them, with the code that they are read from:
--   Prelude/ has the shared names: texts and bytes as lists of numbers (Texts), Python's string
--     methods (Strings), integers that may be negative (Int), and results that stop with a
--     reason (Results).
--   Cpio/ is tools/linux/mkimage.py, class Cpio and verify_cpio. The class has a record, Cpio,
--     and one function per method; a state carries the bytes written so far, the inode counter and
--     the names seen. Walk is verify_cpio.
--   BootImage/ is read_bootimg, write_bootimg and cmdline_words of the same file.
--   Ed25519/ is the signature check of tools/techo5lib.py.
--   Release/ is download_checked, verify_manifest and class Release of that file, over a record
--     World of the computer's files and a network that answers each request as it likes.
--   Rootfs/ is tools/linux/mkrootfs.py: Root is class Root, whose dictionary is a list in insertion
--     order, and Build is main.
--   Initramfs/ is main of tools/linux/mkimage.py: the archive that it fills by the calls of Cpio, and
--     the boot image that it makes of it.
--   Asking/ is adb_devices, pick_unit, ask_name, check_gift, confirm, check_serial_access,
--     valid_api_key and wifi_conf of tools/techo5lib.py, with the lines typed as an argument.
--   Console/ is console_exchange and class Console of that file, over what the port gives at each
--     round and the ports that are listed.
--   Boards/ is tools/dotimage.py (Kernels: the boards, kernel_board, kernel_is_61 and kernel_for) and
--     the choice of the board and of its kernel in main of tools/update-boot.py and
--     tools/install-dot.py (Choice).
--   Backups/ is step 2 of main of tools/install-dot.py: the copies of the unit's partitions.
--   Network/ is the Wi-Fi network (Wifi) and step 4 of that main, the name and the key (Identity), with
--     readable_name, is_techo5_image and in_rescue.
--   Waits/ is wait_for, Adb.push and collect_evidence of tools/techo5lib.py and the wait for a healthy
--     boot of tools/update-boot.py, over a clock and tests that are functions of the round.
--   Install/ is steps 5 to 7 of main of tools/install-dot.py: the commands for the unit (Commands,
--     Script), the steps in a monad that keeps the history of what the unit has been told (Session,
--     Steps), what has to come before each command (Protocol), and that it does (Ordered, Whole).
--   Update/ is tools/update-boot.py from the boot's id on: the script that flashes, on the unit's images
--     and its partition (Flash), and the steps around it (Session).
--   FirstBoot/ is the end of main of tools/install-dot.py: the loop that watches the first boot on the
--     console (Watch) and how it reads the answers (Answers).
--   CommandLine/ has build_boot_image and with_member of tools/dotimage.py (BootImage, Packages) and main
--     of tools/linux/build-dot-rootfs.py (Rootfs), up to the command lines of mkimage.py and mkrootfs.py,
--     with the options as argparse reads them (Options).
--   DotRelease/ is class DotRelease of tools/dotimage.py (Opening), over class Release, and the helpers on
--     tar files that it uses (Archives).
--   SetWifi/ is tools/set-wifi.py, over the console and wifi_conf.
--   Tests/ runs the definitions on small inputs and applies each theorem at one.
--
-- Bounds and fuel: numbers are natural numbers, and a field of w bits is written modulo 2 ^ w.
-- verify_cpio is given one round more than the archive has bytes, and every round moves the
-- position on, unless a size is read as negative; then the walk may go back for ever, as it does
-- in the source, and running out of rounds stands for that. The ladder of _point_mul and the
-- powers have one round more than the number that each round halves. Root.dir and Root.parents
-- call each other with the length of the name as fuel, and a prefix of a name is shorter than the
-- name. The removal of escape sequences has the length of the text, which every step makes
-- shorter. A wait has one round more than the seconds that it waits, and every round sleeps for a
-- second at least; so have the watch of the first boot and the check of the API port.
--
-- Not modelled: SHA-1, SHA-256, SHA-512, base64, JSON, tarfile and gzip are parameters or are named
-- by their results; the serial port, subprocesses, the clock and the printing of progress are left
-- out; tools/micbench computes with floating point, cmd/wmtup is a Go program, and the shell and
-- PowerShell scripts are not Python.
pub mod Prelude
pub mod Cpio
pub mod BootImage
pub mod Ed25519
pub mod Release
pub mod Rootfs
pub mod Initramfs
pub mod Asking
pub mod Console
pub mod Boards
pub mod Backups
pub mod Waits
pub mod Network
pub mod Install
pub mod Update
pub mod FirstBoot
pub mod CommandLine
pub mod DotRelease
pub mod SetWifi
mod Tests
