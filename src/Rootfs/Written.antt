-- ===== src/Rootfs/Written.antt =====
-- tools/linux/mkrootfs.py: the tree that `main` writes out.
use techo5_dot.Prelude.{
  ◌≡◌, sym, ap, ◌∙◌, ◌++◌, Bytes, codes, is_empty, if◌then◌else◌, true, Option, some, ok,
  bind-eq_ok, ok_injective, among, lstrip, rstrip,
}
use techo5_dot.Rootfs.Root.{content, Root, new_root, lookup, add_tar}
use techo5_dot.Rootfs.Tree.{lookup-put}
use techo5_dot.Rootfs.Build.{
  Args, of_tar, add_apkdirs, add_specs, add_overlay, drop_paths, add_fixed, build,
}

add_fixed_release :
    (release : Bytes) (r : Root)
    → lookup (add_fixed release r).entries (codes "etc/techo5-release")
      ≡ some (content 0o644 (release ++ codes "\n"))
unfolding add_fixed among lstrip rstrip
add_fixed_release release r =
    lookup-put (codes "etc/techo5-release") (content 0o644 (release ++ codes "\n")) _

module _ (read_file : Bytes → Option Bytes) (build_time : Bytes) where
  -- The tree names its release: the argument with a line end, or the time of the build where the
  -- argument is empty, whatever file of that name the sources brought.
  pub build-release :
      (a : Args) {r : Root}
      → build read_file build_time a ≡ ok r
      → lookup r.entries (codes "etc/techo5-release")
        ≡ some
            (content 0o644 ((if is_empty a.release then build_time else a.release) ++ codes "\n"))
  unfolding build
  build-release a h =
      let (r1, e1, h1) = bind-eq_ok (of_tar (add_tar a.rootfs true new_root)) _ h in
      let (r2, e2, h2) = bind-eq_ok (add_apkdirs a.apkdir r1) _ h1 in
      let (r3, e3, h3) = bind-eq_ok (add_specs read_file 0o755 a.add r2) _ h2 in
      let (r4, e4, h4) = bind-eq_ok (add_specs read_file 0o644 a.add_data r3) _ h3 in
      let (r5, e5, h5) = bind-eq_ok (drop_paths a.dropped (add_overlay a.overlay r4)) _ h4 in
      let release = if is_empty a.release then build_time else a.release in
      sym (ap (λ t. lookup (t.entries) (codes "etc/techo5-release")) (ok_injective h5))
      ∙ add_fixed_release release r5
