-- ===== src/Rootfs/Prefixes.antt =====
-- tools/linux/mkrootfs.py: the prefixes of a path are shorter than the path.
use mathlib.Core.Path.{subst}
use techo5_dot.Prelude.{
  ℕ, zero, suc, ◌+◌, ◌<◌, ◌≤◌, ◌≡◌, refl, ap, ◌∙◌, List, [], ◌∷◌, Bytes, codes, length, take, map,
  init, split, join, strip, rstrip, lstrip, range_from, Bool-cases, inl, inr, arith, length-append,
  cons_first, ◌==◌,
}
use techo5_dot.Rootfs.Root.{prefixes}

-- Every text of the list satisfies the predicate.
abbrev pub All : (Bytes → Type 0) → List Bytes → Type 0
All P [] = Unit
All P (x ∷ xs) = P x × All P xs

length-lstrip : (chars s : Bytes) → length (lstrip chars s) ≤ length s
unfolding lstrip
length-lstrip chars [] = omega arith
length-lstrip chars (x ∷ xs) = ground (arith, length-lstrip chars xs)

length-rstrip : (chars s : Bytes) → length (rstrip chars s) ≤ length s
unfolding rstrip
length-rstrip chars [] = omega arith
length-rstrip chars (x ∷ xs) = ground (arith, length-rstrip chars xs)

pub length-strip : (chars s : Bytes) → length (strip chars s) ≤ length s
length-strip chars s = omega (arith, length-rstrip chars (lstrip chars s), length-lstrip chars s)

length-join-cons :
    (c : ℕ) (w v : Bytes) (vs : List Bytes)
    → length (join (c ∷ []) (w ∷ v ∷ vs)) ≡ length w + 1 + length (join (c ∷ []) (v ∷ vs))
unfolding join
length-join-cons c w v vs = omega (arith, length-append {A = ℕ} w (c ∷ join (c ∷ []) (v ∷ vs)))

-- A part of a path that leaves the last component out is shorter.
length-join-take :
    (c i : ℕ) (w v : Bytes) (vs : List Bytes)
    → length (join (c ∷ []) (take i (init (w ∷ v ∷ vs)))) < length (join (c ∷ []) (w ∷ v ∷ vs))
length-join-take c zero w v vs =
    unfold join in ground (arith, length-append {A = ℕ} w (c ∷ join (c ∷ []) (v ∷ vs)))
length-join-take c (suc zero) w v vs =
    unfold join in ground (arith, length-append {A = ℕ} w (c ∷ join (c ∷ []) (v ∷ vs)))
length-join-take c (suc (suc i)) w v [] =
    unfold join in ground (arith, length-append {A = ℕ} w (c ∷ v))
length-join-take c (suc (suc i)) w v (u ∷ vs) = omega (
  arith,
  length-join-take c (suc i) v u vs,
  length-join-cons c w v (u ∷ vs),
  length-join-cons c w v (take i (init (u ∷ vs))),
)

length-join-cons_first :
    (c x : ℕ) (ws : List Bytes)
    → length (join (c ∷ []) (cons_first x ws)) ≡ suc (length (join (c ∷ []) ws))
unfolding join
length-join-cons_first c x [] = refl
length-join-cons_first c x (w ∷ []) = refl
length-join-cons_first c x (w ∷ v ∷ ws) = refl

split-cases : (c : ℕ) (s : Bytes) → (w : Bytes) × (ws : List Bytes) × (split c s ≡ w ∷ ws)
unfolding split
split-cases c [] = ([], [], refl)
split-cases c (x ∷ xs) =
    let (w, ws, e) = split-cases c xs in
    elim (Bool-cases (x == c)) [ inl h ↦ ([], split c xs, rw h) | inr h ↦ (x ∷ w, ws, rw (h, e)) ]

length-join-split : (c : ℕ) (s : Bytes) → length (join (c ∷ []) (split c s)) ≡ length s
unfolding split
length-join-split c [] = unfold join in refl
length-join-split c (x ∷ s) =
    let (w, ws, e) = split-cases c s in
    let step : length (join (c ∷ []) ([] ∷ split c s)) ≡ suc (length (join (c ∷ []) (split c s))) =
      rw e (omega (arith, length-join-cons c [] w ws)) in
    let rest = length-join-split c s in
    elim (Bool-cases (x == c)) [
      | inl h ↦ rw h (step ∙ ap suc rest)
      | inr h ↦ rw h (length-join-cons_first c x (split c s) ∙ ap suc rest)
    ]

All-map :
    (P : Bytes → Type 0) (f : ℕ → Bytes) (all : (i : ℕ) → P (f i)) (i n : ℕ)
    → All P (map f (range_from i n))
All-map P f all i zero = tt
All-map P f all i (suc n) = (all i, All-map P f all (i + 1) n)

pub prefixes-shorter : (name : Bytes) → All (λ p. length p < length name) (prefixes name)
unfolding prefixes
prefixes-shorter name =
    let (w, ws, e) = split-cases b'/' (strip (codes "/") name) in
    let fits : length (join (codes "/") (split b'/' (strip (codes "/") name))) ≤ length name =
      omega
        (arith, length-join-split b'/' (strip (codes "/") name), length-strip (codes "/") name) in
    rw e (by_shape w ws (subst (λ t. length (join (codes "/") t) ≤ length name) e fits))
  where
    by_shape :
        (w : Bytes) (ws : List Bytes)
        → length (join (codes "/") (w ∷ ws)) ≤ length name
        → All
            (λ p. length p < length name)
            (map
              (λ i. join (codes "/") (take i (init (w ∷ ws))))
              (range_from 1 (length (init (w ∷ ws)))))
    by_shape w [] fits = tt
    by_shape w (v ∷ vs) fits =
        All-map _ _ (λ i. omega (arith, fits, length-join-take b'/' i w v vs)) 1
          (length (init (w ∷ v ∷ vs)))
