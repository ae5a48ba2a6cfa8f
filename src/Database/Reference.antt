-- ===== src/Database/Reference.antt =====
-- A database that keeps everything in memory, and checks the constraints by `satisfies`. It shows
-- that the behaviour which the development relies on can be had.
use drive_now.Base.{
  ℕ, suc, ◌≤◌, ◌≡◌, refl, inl, inr, none, List, [], ◌∷◌, ◌++◌, arith, ltb, if◌then◌else◌,
  Bool-cases,
}
use drive_now.Models.{Car, Rental}
use drive_now.Models.Tables.{find_car, find_rental}
use drive_now.Models.Tables.Check.{satisfies, satisfies_sound, satisfies_complete}
use drive_now.Database.{
  integrity_error, Done, done, failed, View, at, settled, Database, IsDatabase, IsUp, Flushes,
  Commits,
}

-- The least key above those of the rows.
abbrev above_cars : List Car → ℕ
above_cars [] = 1
above_cars (c ∷ cs) = let rest = above_cars cs in if ltb c.id rest then rest else suc c.id

abbrev above_rentals : List Rental → ℕ
above_rentals [] = 1
above_rentals (r ∷ rs) = let rest = above_rentals rs in if ltb r.id rest then rest else suc r.id

above_cars-find_car : (i : ℕ) (cs : List Car) → above_cars cs ≤ i → find_car i cs ≡ none
above_cars-find_car i [] h = refl
above_cars-find_car i (c ∷ cs) h = ground (arith, above_cars-find_car i cs)

above_rentals-find_rental :
    (i : ℕ) (rs : List Rental) → above_rentals rs ≤ i → find_rental i rs ≡ none
above_rentals-find_rental i [] h = refl
above_rentals-find_rental i (r ∷ rs) h = ground (arith, above_rentals-find_rental i rs)

abbrev flush : View → Done × View
flush v =
    if satisfies (settled v)
    then (done, at v.committed (settled v) [] v.now)
    else (failed integrity_error, v)

-- The next transaction begins a second later.
abbrev commit : View → Done × View
commit v =
    if satisfies (settled v)
    then (done, at (settled v) (settled v) [] (suc v.now))
    else (failed integrity_error, v)

abbrev pub in_memory : Database
in_memory = record {
  Session = View;
  view = λ v. v;
  next_car_id = λ v. above_cars v.visible.cars;
  next_rental_id = λ v. above_rentals v.visible.rentals;
  assign = λ c v. record v { pending = v.pending ++ c ∷ [] };
  flush = flush;
  commit = commit;
  rollback = λ v. at v.committed v.committed [] v.now;
}

flush_cases : (v : View) → Flushes in_memory v
flush_cases v = elim (Bool-cases (satisfies (settled v))) [
  | inl ok ↦
      inl (at v.committed (settled v) [] v.now, rw ok refl, refl, satisfies_sound (settled v) ok)
  | inr bad ↦ inr (integrity_error, v, rw bad refl, refl)
]

commit_cases : (v : View) → Commits in_memory v
commit_cases v = elim (Bool-cases (satisfies (settled v))) [
  | inl ok ↦ inl (
    at (settled v) (settled v) [] (suc v.now),
    rw ok refl,
    record { committed = refl; visible = refl; pending = refl },
    satisfies_sound (settled v) ok,
  )
  | inr bad ↦ inr (integrity_error, v, rw bad refl, refl)
]

pub in_memory-IsDatabase : IsDatabase in_memory
in_memory-IsDatabase = record {
  assign_view = λ c s. refl;
  flush_view = flush_cases;
  commit_view = commit_cases;
  rollback_view = λ s. record { committed = refl; visible = refl; pending = refl };
  fresh_car = λ s. above_cars-find_car (above_cars s.visible.cars) s.visible.cars (omega arith);
  fresh_rental = λ s.
      above_rentals-find_rental (above_rentals s.visible.rentals) s.visible.rentals (omega arith);
}

pub in_memory-IsUp : IsUp in_memory
in_memory-IsUp = record {
  flush_done = λ s h. rw (satisfies_complete (settled s) h) refl;
  commit_done = λ s h. rw (satisfies_complete (settled s) h) refl;
}
