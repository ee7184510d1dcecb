-- ===== src/Cpio/Skipping.antt =====
-- tools/linux/mkimage.py: what `skip_dotfiles` does in `add_tar`.
use mathlib.Core.Path.{fun_ext}
use techo5_dot.Prelude.{
  ◌≡◌, refl, ap, List, [], ◌∷◌, Bytes, codes, starts_with, Bool, false, arith, starts_with-lstrip,
  starts_with-rstrip, lstrip_fixed, lstrip, among, ◌>>=◌,
}
use techo5_dot.Cpio.Archive.{Cpio}
use techo5_dot.Cpio.Tree.{Member, member_name, add_member, add_members, add_tar}

-- The stripped name never begins with a dot.
member_name_dot : (name : Bytes) → starts_with (member_name name) (codes ".") ≡ false
unfolding member_name
member_name_dot name =
    let stripped = lstrip (codes "./") name in
    let slash : starts_with stripped (codes "/") ≡ false =
      starts_with-lstrip (codes "./") name b'/' (unfold among in refl) in
    let dot : starts_with stripped (codes ".") ≡ false =
      starts_with-lstrip (codes "./") name b'.' (unfold among in refl) in
    rw (lstrip_fixed b'/' stripped slash) (starts_with-rstrip (codes "/") stripped b'.' dot)

add_member_skip :
    (all : List Member) (skip : Bool) (m : Member) (c : Cpio)
    → add_member all skip m c ≡ add_member all false m c
unfolding add_member
add_member_skip all skip m c = ground (arith, member_name_dot m.name)

add_members_skip :
    (all ms : List Member) (skip : Bool) (c : Cpio)
    → add_members all skip ms c ≡ add_members all false ms c
unfolding add_members
add_members_skip all [] skip c = refl
add_members_skip all (m ∷ ms) skip c =
    rw (add_member_skip all skip m c)
      (ap (λ k. add_member all false m c >>= k) (fun_ext (λ c'. add_members_skip all ms skip c')))

-- `skip_dotfiles` has no effect: the dot that it looks for is stripped from every name first,
-- so the archive with the flag set is the archive without it.
pub add_tar_skip :
    (members : List Member) (skip : Bool) (c : Cpio)
    → add_tar members skip c ≡ add_tar members false c
unfolding add_tar
add_tar_skip members skip c = add_members_skip members members skip c
