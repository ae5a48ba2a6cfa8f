-- ===== src/Tests/Overlap.antt =====
-- Requests that rent the same car at the same time.
use drive_now.Base.{ℕ, ◌+◌, ◌≡◌, refl, inl, inr, true, none, some, arith, ◌==◌, Bool-cases}
use drive_now.Models.{in_use}
use drive_now.Models.Tables.{apply_all}
use drive_now.Services.Errors.{car_not_available, has_status}
use drive_now.Fleet.Consistent.{IsConsistent}
use drive_now.History.{register}
use drive_now.Repositories.Rentals.{active_of}
use drive_now.Interleaving.Points.{ready, committed, refused, is_running, is_written, holds_car}
use drive_now.Interleaving.Statements.{react}
use drive_now.Interleaving.Writes.{Job, changes, promise, stores, refuses}
use drive_now.Interleaving.Steps.{System, Granted, move, acts, commits, Reach, start, later}
use drive_now.Interleaving.Invariant.{IsWorkload}
use drive_now.Interleaving.Safety.{Reach-IsConsistent, Reach-stores, Reach-refuses, Reach-Granted}
use drive_now.Tests.Sample.{fleet, fleet-IsConsistent, five_days}

-- Every request rents car 1, as another customer's.
abbrev rush : ℕ → Job
rush i = record {
  call = register 100 (five_days 1);
  now = 20;
  car_key = 50 + i;
  rental_key = 50 + i;
}

rush-IsWorkload : IsWorkload rush fleet
rush-IsWorkload = record {
  consistent = fleet-IsConsistent;
  valid = λ i. omega arith;
  unused = λ i. (ground arith, ground arith);
  car_keys = λ i j e. ground arith;
  rental_keys = λ i j e. ground arith;
}

abbrev opened : System
opened = record { tables = fleet; point = λ _. ready }

-- Request `i` runs its next statement.
abbrev acting : ℕ → System → System
acting i s = record s { point = move s.point i (react (rush i).call s.tables (s.point i)) }

abbrev committing : ℕ → System → System
committing i s = record {
  tables = apply_all (rush i).now (changes (rush i) (s.point i)) s.tables;
  point = move s.point i committed;
}

nothing_held : Granted rush opened 0
nothing_held = ((λ c j wanted taken. absurd (cc)), (λ c j wanted taken. absurd (cc)))

abbrev holding : System
holding = acting 0 opened

holding-Reach : Reach rush fleet holding
holding-Reach = later start (acts 0 refl nothing_held)

holds_one : holds_car (holding.point 0) ≡ some 1
holds_one = refl

Reach-Granted_example : Granted rush holding 0
Reach-Granted_example = Reach-Granted rush fleet holding 0 1 rush-IsWorkload holding-Reach holds_one

abbrev flushed : System
flushed = acting 0 holding

flushed-Reach : Reach rush fleet flushed
flushed-Reach =
    later holding-Reach
      (acts 0 refl (Reach-Granted rush fleet holding 0 1 rush-IsWorkload holding-Reach holds_one))

is_flushed : is_written (flushed.point 0) ≡ true
unfolding active_of
is_flushed = refl

Reach-stores_example :
    promise (rush 0) fleet ≡ stores (apply_all 20 (changes (rush 0) (flushed.point 0)) fleet)
Reach-stores_example = Reach-stores rush fleet flushed 0 rush-IsWorkload flushed-Reach is_flushed

abbrev rented : System
rented = committing 0 flushed

rented-Reach : Reach rush fleet rented
rented-Reach = later flushed-Reach (commits 0 is_flushed)

Reach-IsConsistent_example : IsConsistent rented.tables
Reach-IsConsistent_example = Reach-IsConsistent rush fleet rented rush-IsWorkload rented-Reach

nobody_holds : (j : ℕ) → holds_car (rented.point j) ≡ none
nobody_holds j = elim (Bool-cases (0 == j)) [ inl e ↦ rw e refl | inr e ↦ rw e refl ]

free_again : Granted rush rented 1
free_again = (
  (λ c j wanted taken. let idle = nobody_holds j in absurd (cc)),
  (λ c j wanted taken. absurd (cc)),
)

abbrev late : System
late = acting 1 rented

late-Reach : Reach rush fleet late
late-Reach = later rented-Reach (acts 1 refl free_again)

taken :
    react (rush 1).call late.tables (late.point 1)
    ≡ refused (car_not_available 1 (has_status in_use))
unfolding active_of
taken = refl

runs : is_running (late.point 1) ≡ true
unfolding active_of
runs = refl

Reach-refuses_example :
    promise (rush 1) late.tables ≡ refuses (car_not_available 1 (has_status in_use))
Reach-refuses_example =
    Reach-refuses rush fleet late 1 (car_not_available 1 (has_status in_use)) rush-IsWorkload
      late-Reach runs taken
