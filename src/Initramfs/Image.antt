-- ===== src/Initramfs/Image.antt =====
-- tools/linux/mkimage.py: the images that `main` reports as made.
use techo5_dot.Prelude.{ℕ, ◌≤◌, ◌≡◌, Bytes, List, length, contains, codes, true, ok}
use techo5_dot.Cpio.Walk.{verify_cpio}
use techo5_dot.BootImage.Format.{Parts, read_bootimg}
use techo5_dot.Initramfs.Build.{Args, kernel_or}

-- An image with a ramdisk in it, as the reader of boot images sees it.
pub record Holds (image kernel rd : Bytes) (ps : ℕ) : Type 0 where
  pub header : Bytes
  pub read :
      read_bootimg image
      ≡ ok (record { hdr = header; kernel = kernel; ramdisk = rd; page_size = ps })

-- What a made initramfs image rests on.
pub record Made (compress : Bytes → Bytes) (a : Args) (parts : Parts) (image : Bytes) : Type 0 where
  pub archive : Bytes
  pub names : List Bytes
  pub walked : verify_cpio archive ≡ ok names
  pub has_init : contains names (codes "init") ≡ true
  pub has_busybox : contains names (codes "bin/busybox") ≡ true
  pub has_static_busybox : contains names (codes "bin/busybox.static") ≡ true
  pub holds : Holds image (kernel_or a.kernel parts.kernel) (compress archive) parts.page_size
  pub fits : length image ≤ a.max_size
