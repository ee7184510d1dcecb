-- ===== src/Rootfs/Tree.antt =====
-- tools/linux/mkrootfs.py: the shape of the tree that class Root keeps.
use techo5_dot.Prelude.{
  ℕ, zero, suc, ◌<◌, ◌≤◌, ◌≡◌, sym, ◌∙◌, List, [], ◌∷◌, Bytes, codes, length, strip, same, same_iff,
  same_refl, contains, true, false, ◌||◌, ◌&&◌, not, Bool-cases, inl, inr, arith, is_empty, some,
}
use techo5_dot.Rootfs.Root.{
  Node, folder, Root, keys, lookup, assign, pop, see, prefixes, each, add_folder, dir_loop, dir,
  parents, put,
}
use techo5_dot.Rootfs.Prefixes.{All, prefixes-shorter, length-strip}

-- No name stands twice.
abbrev pub Distinct : List (Bytes × Node) → Type 0
Distinct [] = Unit
Distinct ((k, node) ∷ es) = (contains (keys es) k ≡ false) × Distinct es

keys-assign :
    (name : Bytes) (node : Node) (es : List (Bytes × Node)) (x : Bytes)
    → contains (keys (assign name node es)) x ≡ (same x name || contains (keys es) x)
unfolding assign contains
keys-assign name node [] x = ground arith
keys-assign name node ((k, old) ∷ es) x =
    ground (arith, keys-assign name node es x, same_iff k name)

pub assign-Distinct :
    (name : Bytes) (node : Node) (es : List (Bytes × Node))
    → Distinct es
    → Distinct (assign name node es)
unfolding assign contains
assign-Distinct name node [] d = ground arith
assign-Distinct name node ((k, old) ∷ es) (new, d) =
    ground (arith, assign-Distinct name node es d, keys-assign name node es k)

keys-pop :
    (name : Bytes) (es : List (Bytes × Node)) (x : Bytes)
    → Distinct es
    → contains (keys (pop name es)) x ≡ (not (same x name) && contains (keys es) x)
unfolding pop contains
keys-pop name [] x d = ground arith
keys-pop name ((k, old) ∷ es) x (new, d) =
    ground (arith, keys-pop name es x d, same_iff k name, same_iff x name, same_iff x k)

pub pop-Distinct : (name : Bytes) (es : List (Bytes × Node)) → Distinct es → Distinct (pop name es)
unfolding pop
pop-Distinct name [] d = tt
pop-Distinct name ((k, old) ∷ es) (new, d) =
    ground (arith, pop-Distinct name es d, keys-pop name es k d)

lookup-assign :
    (name : Bytes) (node : Node) (es : List (Bytes × Node))
    → lookup (assign name node es) name ≡ some node
unfolding lookup assign
lookup-assign name node [] = ground (arith, same_refl name)
lookup-assign name node ((k, old) ∷ es) = ground (arith, lookup-assign name node es)

-- A name that is empty once stripped, or one that the tree has.
abbrev pub Covered : List Bytes → Bytes → Type 0
Covered seen p = (is_empty (strip (codes "/") p) || contains seen (strip (codes "/") p)) ≡ true

-- The dictionary has no name twice, it has the names seen and no other, and with a name it has
-- the directories above it.
pub record WellFormed (r : Root) : Type 0 where
  pub distinct : Distinct (r.entries)
  pub recorded : (x : Bytes) → contains (keys r.entries) x ≡ contains r.seen x
  pub closed : (x : Bytes) → contains r.seen x ≡ true → All (Covered r.seen) (prefixes x)

abbrev pub Grown : Root → Root → Type 0
Grown r r' = (x : Bytes) → contains r.seen x ≡ true → contains r'.seen x ≡ true

All-Grown :
    (r r' : Root) (ps : List Bytes)
    → Grown r r'
    → All (Covered r.seen) ps
    → All (Covered r'.seen) ps
All-Grown r r' [] g a = tt
All-Grown r r' (p ∷ ps) g (a, more) =
    (ground (arith, g (strip (codes "/") p)), All-Grown r r' ps g more)

contains-see :
    (n : Bytes) (seen : List Bytes) (x : Bytes)
    → contains (see n seen) x ≡ (same x n || contains seen x)
unfolding contains
contains-see n seen x = ground (arith, same_iff x n)

-- What a step of the tree keeps and gives.
pub record Step (r r' : Root) : Type 0 where
  pub formed : WellFormed r'
  pub grown : Grown r r'

add-Step :
    (n : Bytes) (es : List (Bytes × Node)) (r : Root)
    → WellFormed r
    → All (Covered (r.seen)) (prefixes n)
    → Distinct es
    → ((x : Bytes) → contains (keys es) x ≡ (same x n || contains r.seen x))
    → Step r (record { entries = es; seen = see n r.seen })
add-Step n es r w above d k =
    let r' : Root = record { entries = es; seen = see n r.seen } in
    let g : Grown r r' = λ x h. contains-see n r.seen x ∙ ground (arith, h) in
    record {
      formed = record {
        distinct = d;
        recorded = λ x. k x ∙ sym (contains-see n r.seen x);
        closed = λ x h. elim (Bool-cases (same x n)) [
          | inl e ↦ rw ((same_iff x n).0 e) (All-Grown r r' (prefixes n) g above)
          | inr ne ↦
              All-Grown r r' (prefixes x) g (w.closed x (ground (arith, contains-see n r.seen x)))
        ];
      };
      grown = g;
    }

pub stay : (r : Root) → WellFormed r → Step r r
stay r w = record { formed = w; grown = λ x h. h }

-- A step that also makes sure of a name.
abbrev Adds : Root → Root → Bytes → Type 0
Adds r r' name = Step r r' × Covered r'.seen name

-- A chain of steps for names of bounded length.
each-Step :
    (bound : ℕ) (f : Bytes → Root → Root)
    (step : (p : Bytes) (r : Root) → length p < bound → WellFormed r → Adds r (f p r) p)
    (ps : List Bytes) (r : Root)
    → All (λ p. length p < bound) ps
    → WellFormed r
    → Step r (each f ps r) × All (Covered ((each f ps r).seen)) ps
each-Step bound f step [] r a w = (stay r w, tt)
each-Step bound f step (p ∷ ps) r (a, more) w =
    let (s, c) = step p r a w in
    let (s', cs) = each-Step bound f step ps (f p r) more s.formed in
    (
      record { formed = s'.formed; grown = λ x h. s'.grown x (s.grown x h) },
      (ground (arith, c, s'.grown (strip (codes "/") p)), cs),
    )

add_folder-Step :
    (n : Bytes) (mode : ℕ) (r : Root)
    → WellFormed r
    → All (Covered (r.seen)) (prefixes n)
    → Step r (add_folder n mode r)
add_folder-Step n mode r w above =
    add-Step n (assign n (folder mode) r.entries) r w above
      (assign-Distinct n (folder mode) r.entries w.distinct)
      (λ x. keys-assign n (folder mode) r.entries x ∙ rw (w.recorded x))

pub Step-trans : (r s t : Root) → Step r s → Step s t → Step r t
Step-trans r s t a b = record { formed = b.formed; grown = λ x h. b.grown x (a.grown x h) }

All-weaken :
    (m n : ℕ) (ps : List Bytes) → m ≤ n → All (λ p. length p < m) ps → All (λ p. length p < n) ps
All-weaken m n [] h a = tt
All-weaken m n (p ∷ ps) h (a, more) = (omega (arith, h, a), All-weaken m n ps h more)

dir_loop-Adds :
    (fuel mode : ℕ) (name : Bytes) (r : Root)
    → length name < fuel
    → WellFormed r
    → Adds r (dir_loop fuel mode name r) name
unfolding dir_loop
dir_loop-Adds zero mode name r h w = absurd (omega arith)
dir_loop-Adds (suc fuel) mode name r h w =
    let n = strip (codes "/") name in
    let (s, above) =
      each-Step fuel (dir_loop fuel 0o755) (λ p t short v. dir_loop-Adds fuel 0o755 p t short v)
        (prefixes n) r
        (All-weaken (length n) fuel (prefixes n) (omega (arith, h, length-strip (codes "/") name))
          (prefixes-shorter n))
        w in
    elim (Bool-cases (is_empty n || contains r.seen n)) [
      | inl known ↦ rw known (stay r w, known)
      | inr new ↦ rw new (
        Step-trans _ _ _ s
            (add_folder-Step n mode (each (dir_loop fuel 0o755) (prefixes n) r) s.formed above),
        ground
            (arith, contains-see n (each (dir_loop fuel 0o755) (prefixes n) r).seen n, same_refl n),
      )
    ]

pub dir-Step : (name : Bytes) (mode : ℕ) (r : Root) → WellFormed r → Step r (dir name mode r)
unfolding dir
dir-Step name mode r w = (dir_loop-Adds (suc (length name)) mode name r (omega arith) w).0

parents-Step :
    (name : Bytes) (r : Root)
    → WellFormed r
    → Step r (parents name r) × All (Covered ((parents name r).seen)) (prefixes name)
unfolding parents dir
parents-Step name r w =
    each-Step (length name) (λ p. dir p 0o755)
      (λ p t short v. dir_loop-Adds (suc (length p)) 0o755 p t (omega arith) v) (prefixes name) r
      (prefixes-shorter name) w

pub put-Step : (name : Bytes) (node : Node) (r : Root) → WellFormed r → Step r (put name node r)
unfolding put
put-Step name node r w =
    let n = strip (codes "/") name in
    let above = parents n r in
    let (s, covered) = parents-Step n r w in
    let rest = pop n above.entries in
    let d = s.formed.distinct in
    Step-trans _ _ _ s (
      add-Step n (assign n node rest) above s.formed covered
        (assign-Distinct n node rest (pop-Distinct n above.entries d))
        (λ x.
          keys-assign n node rest x
          ∙ ground (arith, keys-pop n above.entries x d, s.formed.recorded x)))

-- What was put under a name last is what the tree has under it.
pub lookup-put :
    (name : Bytes) (node : Node) (r : Root)
    → lookup (put name node r).entries (strip (codes "/") name) ≡ some node
unfolding put
lookup-put name node r = lookup-assign (strip (codes "/") name) node _
