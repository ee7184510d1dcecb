-- ===== src/Rootfs/Steps.antt =====
-- tools/linux/mkrootfs.py: what every part of `main` keeps.
use mathlib.Core.Path.{subst}
use techo5_dot.Prelude.{
  ok_injective, partition, ℕ, ◌≡◌, List, [], ◌∷◌, Bytes, codes, strip, is_empty, starts_with, Bool,
  true, ◌&&◌, Bool-cases, inl, inr, Option, Option-cases, none, some, Result, ok, err, ◌>>=◌,
  bind-eq_ok, arith, ends_with,
}
use techo5_dot.Cpio.Tree.{
  TarError, Member, Kind, directory, symbolic, regular, hard_link, character, other, get_member,
  read_member, permissions,
}
use techo5_dot.Rootfs.Root.{
  Node, content, link, Root, new_root, dir, put, file, add_kind, add_member, add_members, add_tar,
  add_dir, without_dot_slash,
}
use techo5_dot.Rootfs.Build.{
  Args, of_tar, add_packages, add_apkdirs, sorted_files, add_spec, add_specs, add_overlay,
  drop_paths, destination, add_dirs, mount_points, add_fixed, build,
}

of_tar-eq_ok : {A : Type 0} (r : Result TarError A) {a : A} → of_tar r ≡ ok a → r ≡ ok a
of_tar-eq_ok (ok a) h = ground arith
of_tar-eq_ok (err e) h = absurd (ground arith)

-- A property of trees that `dir`, `file` and `symlink` keep.
module _ (P : Root → Type 0)
    (dir_keeps : (name : Bytes) (mode : ℕ) (r : Root) → P r → P (dir name mode r))
    (put_keeps : (name : Bytes) (node : Node) (r : Root) → P r → P (put name node r)) where
  add_kind-keeps :
      (all : List Member) (m : Member) (name : Bytes) (k : Kind) (r : Root) {r' : Root}
      → P r
      → add_kind all m name k r ≡ ok r'
      → P r'
  unfolding add_kind
  add_kind-keeps all m name directory r p h =
      subst P (ok_injective h) (dir_keeps name (permissions m.mode) r p)
  add_kind-keeps all m name symbolic r p h =
      subst P (ok_injective h) (put_keeps name (link m.linkname) r p)
  add_kind-keeps all m name regular r p h =
      let (bytes, e, h') = bind-eq_ok (read_member m) _ h in
      subst P (ok_injective h') (put_keeps name (content (permissions m.mode) bytes) r p)
  add_kind-keeps all m name hard_link r p h = elim (Option-cases (get_member all m.linkname)) [
    | inl missing ↦ absurd (ground arith)
    | inr (src, found) ↦
        let h1 : (read_member src >>= λ bytes. ok (file name bytes (permissions src.mode) r))
            ≡ ok _ =
          ground arith in
        let (bytes, e, h') = bind-eq_ok (read_member src) _ h1 in
        subst P (ok_injective h') (put_keeps name (content (permissions src.mode) bytes) r p)
  ]
  add_kind-keeps all m name character r p h = subst P (ok_injective h) p
  add_kind-keeps all m name other r p h = subst P (ok_injective h) p

  add_member-keeps :
      (all : List Member) (skip_dotfiles : Bool) (m : Member) (r : Root) {r' : Root}
      → P r
      → add_member all skip_dotfiles m r ≡ ok r'
      → P r'
  unfolding add_member
  add_member-keeps all skip_dotfiles m r {r'} p h =
      elim (Bool-cases (skip_dotfiles && starts_with (without_dot_slash m.name) (codes "."))) [
        | inl skipped ↦ subst P (let e : r ≡ r' = ground arith in e) p
        | inr kept ↦ elim (Bool-cases (is_empty (strip (codes "/") (without_dot_slash m.name)))) [
          | inl nothing ↦ subst P (let e : r ≡ r' = ground arith in e) p
          | inr named ↦
              add_kind-keeps all m (strip (codes "/") (without_dot_slash m.name)) m.kind r p
                (ground arith)
        ]
      ]

  add_members-keeps :
      (all : List Member) (skip_dotfiles : Bool) (ms : List Member) (r : Root) {r' : Root}
      → P r
      → add_members all skip_dotfiles ms r ≡ ok r'
      → P r'
  unfolding add_members
  add_members-keeps all skip_dotfiles [] r p h = subst P (ok_injective h) p
  add_members-keeps all skip_dotfiles (m ∷ ms) r p h =
      let (r1, e, h') = bind-eq_ok (add_member all skip_dotfiles m r) _ h in
      add_members-keeps all skip_dotfiles ms r1 (add_member-keeps all skip_dotfiles m r p e) h'

  add_dir-keeps :
      (files : List (Bytes × Bytes)) (mode : ℕ) (r : Root) → P r → P (add_dir files mode r)
  unfolding add_dir
  add_dir-keeps [] mode r p = p
  add_dir-keeps ((rel, bytes) ∷ files) mode r p =
      elim (Bool-cases (starts_with bytes (codes "#!"))) [
        | inl script ↦ rw script (add_dir-keeps files mode _ (put_keeps rel _ r p))
        | inr plain ↦ rw plain (add_dir-keeps files mode _ (put_keeps rel _ r p))
      ]

  add_packages-keeps :
      (listing : List (Bytes × List Member)) (r : Root) {r' : Root}
      → P r
      → add_packages listing r ≡ ok r'
      → P r'
  unfolding add_packages add_tar
  add_packages-keeps [] r p h = subst P (ok_injective h) p
  add_packages-keeps ((f, members) ∷ rest) r {r'} p h =
      elim (Bool-cases (ends_with f (codes ".apk"))) [
        | inl apk ↦
            let h1 : (of_tar (add_tar members true r) >>= λ t. add_packages rest t) ≡ ok r' =
              ground arith in
            let (t, e, h') = bind-eq_ok (of_tar (add_tar members true r)) _ h1 in
            add_packages-keeps rest t
              (add_members-keeps members true members r p (of_tar-eq_ok _ e)) h'
        | inr other_file ↦ add_packages-keeps rest r p (ground arith)
      ]

  add_apkdirs-keeps :
      (ds : List (Bytes × Option (List (Bytes × List Member)))) (r : Root) {r' : Root}
      → P r
      → add_apkdirs ds r ≡ ok r'
      → P r'
  unfolding add_apkdirs
  add_apkdirs-keeps [] r p h = subst P (ok_injective h) p
  add_apkdirs-keeps ((d, none) ∷ ds) r p h = absurd (ground arith)
  add_apkdirs-keeps ((d, some listing) ∷ ds) r p h =
      let (t, e, h') = bind-eq_ok (add_packages (sorted_files listing) r) _ h in
      add_apkdirs-keeps ds t (add_packages-keeps (sorted_files listing) r p e) h'

  add_dirs-keeps : (ds : List Bytes) (r : Root) → P r → P (add_dirs ds r)
  unfolding add_dirs
  add_dirs-keeps [] r p = p
  add_dirs-keeps (d ∷ ds) r p = add_dirs-keeps ds _ (dir_keeps d 0o755 r p)

  add_fixed-keeps : (release : Bytes) (r : Root) → P r → P (add_fixed release r)
  unfolding add_fixed
  add_fixed-keeps release r p =
      put_keeps _ _ _ (put_keeps _ _ _ (put_keeps _ _ _ (add_dirs-keeps mount_points r p)))

  module _ (read_file : Bytes → Option Bytes) (build_time : Bytes) where
    add_spec-keeps :
        (mode : ℕ) (spec : Bytes) (r : Root) {r' : Root}
        → P r
        → add_spec read_file mode spec r ≡ ok r'
        → P r'
    unfolding add_spec
    add_spec-keeps mode spec r {r'} p h = elim (Bool-cases (is_empty (partition b'=' spec).1)) [
      | inl nothing ↦ absurd (ground arith)
      | inr named ↦ elim (Option-cases (read_file (partition b'=' spec).0)) [
        | inl missing ↦ absurd (ground arith)
        | inr (bytes, found) ↦
            subst P
              (let e : file (destination (partition b'=' spec).1) bytes mode r ≡ r' =
                  ground arith in
                e)
              (put_keeps _ _ r p)
      ]
    ]

    add_specs-keeps :
        (mode : ℕ) (specs : List Bytes) (r : Root) {r' : Root}
        → P r
        → add_specs read_file mode specs r ≡ ok r'
        → P r'
    unfolding add_specs
    add_specs-keeps mode [] r p h = subst P (ok_injective h) p
    add_specs-keeps mode (spec ∷ specs) r p h =
        let (t, e, h') = bind-eq_ok (add_spec read_file mode spec r) _ h in
        add_specs-keeps mode specs t (add_spec-keeps mode spec r p e) h'

    add_overlay-keeps :
        (overlay : Option (List (Bytes × Bytes))) (r : Root) → P r → P (add_overlay overlay r)
    add_overlay-keeps none r p = p
    add_overlay-keeps (some files) r p = add_dir-keeps files 0o755 r p

    -- Through `main`, if `--drop` keeps the property too.
    pub build-keeps :
        (a : Args) {r : Root}
        (drop_keeps : (t t' : Root) → P t → drop_paths a.dropped t ≡ ok t' → P t')
        → P new_root
        → build read_file build_time a ≡ ok r
        → P r
    unfolding build add_tar
    build-keeps a drop_keeps p h =
        let (r1, e1, h1) = bind-eq_ok (of_tar (add_tar a.rootfs true new_root)) _ h in
        let (r2, e2, h2) = bind-eq_ok (add_apkdirs a.apkdir r1) _ h1 in
        let (r3, e3, h3) = bind-eq_ok (add_specs read_file 0o755 a.add r2) _ h2 in
        let (r4, e4, h4) = bind-eq_ok (add_specs read_file 0o644 a.add_data r3) _ h3 in
        let (r5, e5, h5) = bind-eq_ok (drop_paths a.dropped (add_overlay a.overlay r4)) _ h4 in
        let p1 = add_members-keeps a.rootfs true a.rootfs new_root p (of_tar-eq_ok _ e1) in
        let p3 = add_specs-keeps 0o755 a.add r2 (add_apkdirs-keeps a.apkdir r1 p1 e2) e3 in
        let p4 = add_overlay-keeps a.overlay r4 (add_specs-keeps 0o644 a.add_data r3 p3 e4) in
        subst P (ok_injective h5) (add_fixed-keeps _ r5 (drop_keeps _ r5 p4 e5))
