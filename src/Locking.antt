-- ===== src/Locking.antt =====
-- The row locks of `RentalService`, whose comment says: CAR first, then RENTAL (global ordering).
use drive_now.Base.{
  ℕ, ◌≡◌, refl, ◌∙◌, inl, inr, some, List, [], ◌∷◌, ◌++◌, Option-cases, Bool-cases, ltb,
}
use drive_now.Models.{available, status_eq, CarStatus, Car, Rental}
use drive_now.Models.Tables.{find_rental}
use drive_now.Database.{Database, Done, done, failed}
use drive_now.Messaging.{Publisher, Event, Sent, sent}
use drive_now.Messaging
use drive_now.Action.{
  Action, Result, ok, raised, World, Lock, car_lock, rental_lock, resume, ◌>>=◌, ◌>>◌, pure, flush,
  finish, write_line, rental_ended,
}
use drive_now.Repositories.Cars
use drive_now.Repositories.Cars.{find_live}
use drive_now.Repositories.Rentals
use drive_now.Services.Transaction.{transaction, or_rollback, commit, publish, or_log}
use drive_now.Services.Rentals.{
  set_status, close_rental, take_back, end_body, end_rental, rental_event,
}

-- The locks that a call has asked for, the latest first: a car's, and after it a rental's.
abbrev pub CarFirst : List Lock → Type 0
CarFirst [] = Unit {0}
CarFirst (rental_lock j ∷ []) = ⊥
CarFirst (car_lock i ∷ rest) = rest ≡ []
CarFirst (rental_lock j ∷ car_lock i ∷ rest) = rest ≡ []
CarFirst (rental_lock j ∷ rental_lock i ∷ rest) = ⊥

module _ {D : Database} {P : Publisher} where
  -- An action that asks for no lock.
  abbrev Lockless : {A : Type 0} → Action D P A → Type 0
  Lockless m = (w : World D P) → (m w).1.locks ≡ w.locks

  resume-locks :
      {A B : Type 0} (r : Result A × World D P) (f : A → Action D P B)
      → ((a : A) → Lockless (f a))
      → (resume r f).1.locks ≡ r.1.locks
  unfolding resume
  resume-locks (ok a, w) f h = h a w
  resume-locks (raised e, w) f h = refl

  bind-Lockless :
      {A B : Type 0} (m : Action D P A) (f : A → Action D P B)
      → Lockless m
      → ((a : A) → Lockless (f a))
      → Lockless (m >>= f)
  bind-Lockless m f h g w = resume-locks (m w) f g ∙ h w

  finish-locks : (d : Done × D.Session) (w : World D P) → (finish d w).1.locks ≡ w.locks
  finish-locks (done, s) w = refl
  finish-locks (failed e, s) w = refl

  flush-Lockless : Lockless flush
  flush-Lockless w = finish-locks (D.flush w.session) w

  or_rollback-locks : {A : Type 0} (r : Result A × World D P) → (or_rollback r).1.locks ≡ r.1.locks
  or_rollback-locks (ok a, w) = refl
  or_rollback-locks (raised e, w) = refl

  transaction-locks :
      {A : Type 0} (body : Action D P A) (w : World D P)
      → (transaction body w).1.locks ≡ (body w).1.locks
  unfolding transaction
  transaction-locks body w =
      or_rollback-locks _
      ∙ resume-locks (body w) (λ a. commit >> pure a)
          (λ a.
            bind-Lockless commit (λ _. pure a) (λ w'. finish-locks (D.commit w'.session) w')
              (λ _ w'. refl))

  or_log-locks :
      (event : Event) (w : World D P) (r : Sent × P.State) → (or_log event w r).1.locks ≡ w.locks
  or_log-locks event w (sent, p) = refl
  or_log-locks event w (Messaging.raised e, p) = refl

  publish-Lockless : (event : Event) → Lockless (publish event)
  unfolding publish
  publish-Lockless event w = or_log-locks event w (P.publish event w.publisher)

  set_status-Lockless : (status : CarStatus) (car : Car) → Lockless (set_status status car)
  unfolding set_status Cars.set_attributes resume
  set_status-Lockless status car w = elim (Bool-cases (status_eq car.status status)) [
    | inl x ↦ rw (x, set_status) refl
    | inr x ↦ rw (x, set_status) refl
  ]

  update_rental-Lockless : (r : Rental) → Lockless (Rentals.update r)
  unfolding Rentals.update
  update_rental-Lockless r = bind-Lockless flush (λ _. pure r) flush-Lockless (λ _ w. refl)

  update_car-Lockless : (c : Car) → Lockless (Cars.update c)
  unfolding Cars.update
  update_car-Lockless c = bind-Lockless flush (λ _. pure c) flush-Lockless (λ _ w. refl)

  -- The steps at the end of `close_rental`.
  abbrev save_car : Rental → Car → Action D P (Rental × Car)
  save_car r c = Cars.update c >> pure (r, c)

  abbrev save_both : Rental → Car → Action D P (Rental × Car)
  save_both r c = Rentals.update r >> save_car r c

  save_both-Lockless : (r : Rental) (c : Car) → Lockless (save_both r c)
  save_both-Lockless r c =
      bind-Lockless (Rentals.update r) (λ _. save_car r c) (update_rental-Lockless r)
        λ _.
          bind-Lockless (Cars.update c) (λ _. pure {A = Rental × Car} (r, c))
            (update_car-Lockless c) (λ _ w. refl)

  close_rental-Lockless : (today : ℕ) (r : Rental) (c : Car) → Lockless (close_rental today r c)
  unfolding close_rental Rentals.set_attributes resume
  close_rental-Lockless today r c =
      bind-Lockless (Rentals.set_attributes (record r { returned_date = some today }))
        (λ r'. set_status available c >>= save_both r') (λ w. refl)
        λ r'.
          bind-Lockless (set_status available c) (save_both r') (set_status-Lockless available c)
            (save_both-Lockless r')

  take_back-Lockless :
      (today rental_id : ℕ) (r : Rental) (c : Car) → Lockless (take_back today rental_id r c)
  unfolding take_back resume
  take_back-Lockless today rental_id r c w = elim (Option-cases r.returned_date) [
    | inr (d, x) ↦ rw (x, take_back) refl
    | inl x ↦ elim (Bool-cases (ltb today r.start_date)) [
      | inl y ↦ simp (x, y, take_back) refl
      | inr y ↦ simp (x, y, take_back) (close_rental-Lockless today r c w)
    ]
  ]

  end_body-CarFirst :
      (today rental_id : ℕ) (w : World D P)
      → (ls : List Lock) × ((end_body today rental_id w).1.locks ≡ ls ++ w.locks) × CarFirst ls
  unfolding end_body resume Cars.get_by_id_for_update Rentals.get_by_id Rentals.get_by_id_for_update
  end_body-CarFirst today rental_id w =
      let t = (D.view w.session).visible in
      elim (Option-cases (find_rental rental_id t.rentals)) [
        | inl x ↦ ([], rw (x, end_body) refl, tt)
        | inr (r, x) ↦ elim (Option-cases (find_live r.car_id t.cars)) [
          | inl y ↦ (car_lock r.car_id ∷ [], rw (x, end_body) (rw y refl), refl)
          | inr (c, y) ↦ (
            rental_lock rental_id ∷ car_lock r.car_id ∷ [],
            rw (x, end_body) (rw y (rw x (take_back-Lockless today rental_id r c _))),
            refl,
          )
        ]
      ]

  -- What `end_rental` does after its transaction.
  abbrev report : Rental × Car → Action D P Rental
  report both =
      write_line (rental_ended both.0.id both.1.id both.0.returned_date)
      >> (publish (rental_event "rental.ended" both.0.id both.1.id) >> pure both.0)

  report-Lockless : (both : Rental × Car) → Lockless (report both)
  unfolding resume
  report-Lockless both w =
      bind-Lockless (publish (rental_event "rental.ended" both.0.id both.1.id)) (λ _. pure both.0)
        (publish-Lockless _) (λ _ w'. refl) _

  -- Whatever `end_rental` meets, it asks for no row lock, for the lock of one car, or for that of
  -- one car and after it that of one rental.
  pub end_rental-CarFirst :
      (today rental_id : ℕ) (w : World D P)
      → (ls : List Lock) × ((end_rental today rental_id w).1.locks ≡ ls ++ w.locks) × CarFirst ls
  unfolding end_rental
  end_rental-CarFirst today rental_id w =
      let (ls, e, h) = end_body-CarFirst today rental_id w in
      (
        ls,
        resume-locks (transaction (end_body today rental_id) w) report
              (λ both. report-Lockless both)
            ∙ transaction-locks (end_body today rental_id) w
            ∙ e,
        h,
      )
