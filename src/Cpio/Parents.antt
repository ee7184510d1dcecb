-- ===== src/Cpio/Parents.antt =====
-- tools/linux/mkimage.py: the directories that `add_parents` makes sure of.
use techo5_dot.Prelude.{
  ℕ, zero, suc, ◌+◌, ◌≤◌, ◌<◌, ◌≡◌, List, [], ◌∷◌, Bytes, codes, length, contains, true, arith,
  ℕ_discrete, same_refl, Bool-cases, inl, inr, take, init, split, join, strip, map, range_from,
}
use techo5_dot.Cpio.Archive.{Cpio, Entry, dir, entry, entry_of, run, run_entries}
use techo5_dot.Cpio.Tree.{parent_dirs, add_parents}

entry-contains : (e : Entry) (c : Cpio) → contains (entry e c).seen e.name ≡ true
unfolding entry
entry-contains e c = elim (Bool-cases (contains c.seen e.name)) [
  | inl old ↦ rw old old
  | inr new ↦ rw new (unfold contains in rw (same_refl e.name))
]

entry-keeps :
    (e : Entry) (c : Cpio) (x : Bytes)
    → contains c.seen x ≡ true
    → contains (entry e c).seen x ≡ true
unfolding entry contains
entry-keeps e c x h = ground arith

-- A name once in the archive stays there.
pub run_entries-keeps :
    (es : List Entry) (c : Cpio) (x : Bytes)
    → contains c.seen x ≡ true
    → contains (run_entries es c).seen x ≡ true
unfolding run_entries
run_entries-keeps [] c x h = h
run_entries-keeps (e ∷ es) c x h = run_entries-keeps es (entry e c) x (entry-keeps e c x h)

dirs-contains :
    (f : ℕ → Bytes) (n i k : ℕ) (c : Cpio)
    → i ≤ k
    → k < i + n
    → contains (run (map (λ j. dir (f j) 0o755) (range_from i n)) c).seen (f k) ≡ true
unfolding run run_entries
dirs-contains f zero i k c lo hi = absurd (omega arith)
dirs-contains f (suc n) i k c lo hi = elim (ℕ_discrete i k) [
  | yes e ↦ rw (← e) (
      run_entries-keeps (map entry_of (map (λ j. dir (f j) 0o755) (range_from (i + 1) n)))
        (entry (entry_of (dir (f i) 0o755)) c) (f i)
        (entry-contains (entry_of (dir (f i) 0o755)) c))
  | no ne ↦
      dirs-contains f n (i + 1) k (entry (entry_of (dir (f i) 0o755)) c) (omega arith) (omega arith)
]

-- After `add_parents(name)` the archive has every proper prefix of the path, whether it was
-- there before or not.
pub add_parents-contains :
    (name : Bytes) (c : Cpio) (k : ℕ)
    → 1 ≤ k
    → k ≤ length (init (split b'/' (strip (codes "/") name)))
    → contains
        (add_parents name c).seen
        (join (codes "/") (take k (init (split b'/' (strip (codes "/") name)))))
      ≡ true
unfolding add_parents parent_dirs
add_parents-contains name c k lo hi =
    dirs-contains _ (length (init (split b'/' (strip (codes "/") name)))) 1 k c lo (omega arith)
