-- ===== src/Messaging/Consumer/Running.antt =====
-- When the loop of `main` goes on, and how a shutdown ends it.
use drive_now.Base.{◌+◌, ◌≡◌, refl, true, false, List, [], ◌∷◌, ◌++◌, arith, All, length}
use drive_now.Messaging.Consumer.{connection_lost, Round, stopped, going, loop}

-- A round that leaves the loop running: its connection was lost, and no shutdown was requested.
abbrev pub GoesOn : Round → Type 0
GoesOn r =
    (r.requested_before ≡ false) × (r.outcome ≡ connection_lost) × (r.requested_after ≡ false)

loop-prefix :
    (rs rest : List Round)
    → All GoesOn rs
    → ((loop (rs ++ rest)).0 ≡ (loop rest).0) × ((loop (rs ++ rest)).1 ≡ length rs + (loop rest).1)
unfolding loop
loop-prefix [] rest h = (refl, omega arith)
loop-prefix (r ∷ rs) rest h =
    let ((before, lost, after), later) = h in let same = loop-prefix rs rest later in ground arith

-- After any number of rounds that lost their connection without a shutdown, a shutdown found at the
-- head of the loop stops it, without a further connection.
pub loop-shutdown :
    (rs : List Round) (r : Round) (rest : List Round)
    → All GoesOn rs
    → r.requested_before ≡ true
    → loop (rs ++ r ∷ rest) ≡ (stopped, length rs)
unfolding loop
loop-shutdown rs r rest h before = let same = loop-prefix rs (r ∷ rest) h in ground arith

-- The loop goes on after a sequence of rounds only if each of them lost its connection and found no
-- shutdown, and then it tried one connection in each.
pub loop-going : (rs : List Round) → (loop rs).0 ≡ going → All GoesOn rs × ((loop rs).1 ≡ length rs)
unfolding loop
loop-going [] h = (tt, refl)
loop-going (r ∷ rs) h = ground (arith, loop-going rs)
