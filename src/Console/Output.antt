-- ===== src/Console/Output.antt =====
-- tools/techo5lib.py: what `console_exchange` takes for a command's output.
use techo5_dot.Prelude.{
  ◌≡◌, ap, List, [], ◌∷◌, ◌++◌, Bytes, contains, contains-append, same_iff, same_refl, join, sym,
  ◌∙◌, append_assoc, true, false, arith,
}
use techo5_dot.Console.Exchange.{
  answered, Round, chunk, quiet, checked, collect_started, collect, begin_marker, end_marker,
  lines_of, exchange_loop, console_exchange,
}

collect_started-append :
    (finish : Bytes) (out rest : List Bytes)
    → contains out finish ≡ false
    → collect_started finish (out ++ finish ∷ rest) ≡ out
unfolding collect_started contains
collect_started-append finish [] rest h = ground (arith, same_refl finish)
collect_started-append finish (line ∷ out) rest h =
    ground
      (arith, collect_started-append finish out rest, same_iff line finish, same_iff finish line)

-- The lines between the markers.
collect-append :
    (begin finish : Bytes) (noise out rest : List Bytes)
    → contains noise begin ≡ false
    → contains out finish ≡ false
    → collect begin finish (noise ++ begin ∷ (out ++ finish ∷ rest)) ≡ out
unfolding collect contains
collect-append begin finish [] out rest h k =
    ground (arith, same_refl begin, collect_started-append finish out rest k)
collect-append begin finish (line ∷ noise) out rest h k =
    ground
      (arith, collect-append begin finish noise out rest, same_iff line begin, same_iff begin line)

contains-finish :
    (finish : Bytes) (before rest : List Bytes) → contains (before ++ finish ∷ rest) finish ≡ true
unfolding contains
contains-finish finish before rest =
    ground (arith, contains-append before (finish ∷ rest) finish, same_refl finish)

contains-between :
    (begin finish : Bytes) (noise out rest : List Bytes)
    → contains (noise ++ begin ∷ (out ++ finish ∷ rest)) finish ≡ true
unfolding contains
contains-between begin finish noise out rest = ground (
  arith,
  contains-append noise (begin ∷ (out ++ finish ∷ rest)) finish,
  contains-finish finish out rest,
)

module _ (decode : Bytes → Bytes) where
  -- All that has been read.
  unfoldable pub received : List Round → Bytes
  received [] = []
  received (chunk part ∷ rounds) = part ++ received rounds
  received (quiet ∷ rounds) = received rounds
  received (checked alive ∷ rounds) = received rounds

  -- Up to here the console has stayed, and what had been read at each read, behind `buf`, had no line
  -- that is the end marker.
  abbrev pub Waiting : Bytes → Bytes → List Round → Type 0
  Waiting tag buf [] = Unit
  Waiting tag buf (chunk part ∷ rounds) =
      (contains (lines_of (decode (buf ++ part))) (end_marker tag) ≡ false)
      × Waiting tag (buf ++ part) rounds
  Waiting tag buf (quiet ∷ rounds) = Waiting tag buf rounds
  Waiting tag buf (checked alive ∷ rounds) = (alive ≡ true) × Waiting tag buf rounds

  arrived :
      (tag buf part : Bytes) (rounds : List Round) (before noise out rest : List Bytes)
      → contains noise (begin_marker tag) ≡ false
      → contains out (end_marker tag) ≡ false
      → lines_of (decode (buf ++ part)) ≡ noise ++ begin_marker tag ∷ (out ++ end_marker tag ∷ rest)
      → exchange_loop decode tag (chunk part ∷ rounds) buf before ≡ answered (join (10 ∷ []) out)
  unfolding exchange_loop
  arrived tag buf part rounds before noise out rest h k e =
      let there : contains (noise ++ begin_marker tag ∷ (out ++ end_marker tag ∷ rest))
            (end_marker tag)
          ≡ true =
        contains-between (begin_marker tag) (end_marker tag) noise out rest in
      rw e (
        rw there (
          ap (λ t. answered (join (10 ∷ []) t))
            (collect-append (begin_marker tag) (end_marker tag) noise out rest h k)))

  exchange_loop-later :
      (tag part buf : Bytes) (early rounds : List Round) (before noise out rest : List Bytes)
      → Waiting tag buf early
      → contains noise (begin_marker tag) ≡ false
      → contains out (end_marker tag) ≡ false
      → lines_of (decode (buf ++ (received early ++ part)))
        ≡ noise ++ begin_marker tag ∷ (out ++ end_marker tag ∷ rest)
      → exchange_loop decode tag (early ++ chunk part ∷ rounds) buf before
        ≡ answered (join (10 ∷ []) out)
  unfolding exchange_loop received
  exchange_loop-later tag part buf [] rounds before noise out rest w h k e =
      arrived tag buf part rounds before noise out rest h k e
  exchange_loop-later tag part buf (chunk first ∷ early) rounds before noise out rest (missing, w) h
        k e =
      rw missing (
        exchange_loop-later tag part (buf ++ first) early rounds (lines_of (decode (buf ++ first)))
          noise out rest w h k
          (ap (λ t. lines_of (decode t))
              (append_assoc buf first (received early ++ part)
                ∙ ap (λ t. buf ++ t) (sym (append_assoc first (received early) part)))
            ∙ e))
  exchange_loop-later tag part buf (quiet ∷ early) rounds before noise out rest w h k e =
      exchange_loop-later tag part buf early rounds before noise out rest w h k e
  exchange_loop-later tag part buf (checked true ∷ early) rounds before noise out rest (_, w) h k
        e =
      exchange_loop-later tag part buf early rounds before noise out rest w h k e
  exchange_loop-later tag part buf (checked false ∷ early) rounds before noise out rest (missing, w)
        h k e =
      absurd (ground arith)

  -- The exchange answers at the read by which all that has been read has, as a line of its own, the
  -- begin marker and behind it the end marker, where no read before had the end marker and the console
  -- stayed: with the lines between the two, whatever stands before the begin marker (such as the typed
  -- command, echoed and wrapped) and behind the end marker, and however the text was cut into reads.
  pub console_exchange-answered :
      (tag part : Bytes) (early rounds : List Round) (noise out rest : List Bytes)
      → Waiting tag [] early
      → contains noise (begin_marker tag) ≡ false
      → contains out (end_marker tag) ≡ false
      → lines_of (decode (received early ++ part))
        ≡ noise ++ begin_marker tag ∷ (out ++ end_marker tag ∷ rest)
      → console_exchange decode true tag (early ++ chunk part ∷ rounds)
        ≡ answered (join (10 ∷ []) out)
  unfolding console_exchange
  console_exchange-answered tag part early rounds noise out rest w h k e =
      exchange_loop-later tag part [] early rounds [] noise out rest w h k e
