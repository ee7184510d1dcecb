-- ===== src/CommandLine/Paths.antt =====
-- The paths that the programs pass on as values of options.
use techo5_dot.Prelude.{
  ◌≡◌, [], ◌∷◌, ◌++◌, Bytes, codes, starts_with, is_empty, if_both, Bool, true, not, ◌&&◌, arith,
}
use techo5_dot.Release.World.{path_join}
use techo5_dot.CommandLine.Options.{is_value}

-- A path that argparse does not take for an option, and that is not empty.
abbrev pub is_path : Bytes → Bool
is_path a = is_value a && not (is_empty a)

pub append-is_path : (a b : Bytes) → is_path a ≡ true → is_path (a ++ b) ≡ true
unfolding starts_with
append-is_path [] b h = absurd (ground arith)
append-is_path (c ∷ cs) b h = ground arith

pub is_path_value : (a : Bytes) → is_path a ≡ true → is_value a ≡ true
is_path_value a h = ground arith

slash-is_path : (b : Bytes) → starts_with b (codes "/") ≡ true → is_path b ≡ true
unfolding starts_with
slash-is_path [] h = absurd (ground arith)
slash-is_path (c ∷ cs) h = ground arith

pub path_join-is_path : (a b : Bytes) → is_path a ≡ true → is_path (path_join a b) ≡ true
unfolding path_join
path_join-is_path a b h =
    if_both (λ x. is_path x ≡ true) (starts_with b (codes "/")) _ _ (λ slash. slash-is_path b slash)
      (λ relative.
        if_both (λ x. is_path x ≡ true) _ _ _ (λ e. append-is_path a b h)
          (λ e. append-is_path a (b'/' ∷ b) h))
