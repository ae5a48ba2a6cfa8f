-- ===== src/Repositories/Conforms.antt =====
-- The repositories by SQLAlchemy keep the promises of their protocols.
use drive_now.Base.{
  ℕ, ◌+◌, ◌≡◌, refl, sym, ap, subst, ◌∙◌, inl, inr, Bool, true, ◌&&◌, Option, none, some, List, [],
  ◌∷◌, ◌==◌, arith, if◌then◌else◌, count, keep, count-keep, All, Option-cases,
}
use drive_now.Base.Sorting.{
  sort_by, first, insert_by, sort_by-IsSorted, count-sort_by, length-sort_by,
}
use drive_now.Models.{CarStatus, status_eq, Car, Rental, is_active}
use drive_now.Models.Tables.{
  Tables, CarKeys, find_car, updated_car, updated_rental, find_rental, is_open_for,
}
use drive_now.Models.Tables.Laws.{find_rental-put_rental}
use drive_now.Database.{Database, IsDatabase, View}
use drive_now.Messaging.{Publisher}
use drive_now.Action.{Result, ok, World, resume}
use drive_now.Repositories.Cars
use drive_now.Repositories.Cars.{find_live, has_status, by_id, listed, groups, add_to_group}
use drive_now.Repositories.Rentals
use drive_now.Repositories.Rentals.{active_of, all_active, by_id_desc}
use drive_now.Repositories.Calls.{
  Writes, add_car-Writes, add_rental-Writes, update_car-Writes, update_rental-Writes,
  soft_delete-Writes,
}
use drive_now.Repositories.Lookup.{
  find_live-eq-none, find_live-eq-some, find_live-put_car, active_of-eq-none, active_of-eq-some,
}
use drive_now.Repositories.Interface.{
  sqlalchemy_cars, sqlalchemy_rentals, weight, total, CarAdded, CarUpdated, CarDeleted, RentalAdded,
  RentalUpdated, seen, Ends, IsCarRepository, IsRentalRepository,
}

count-absent :
    (p : Car → Bool) (i : ℕ) (cs : List Car)
    → find_car i cs ≡ none
    → count (λ c. p c && (c.id == i)) cs ≡ 0
count-absent p i [] e = refl
count-absent p i (c ∷ cs) e = ground (arith, count-absent p i cs)

count-live :
    (status : Option CarStatus) (i : ℕ) (cs : List Car)
    → CarKeys cs
    → count (λ c. has_status status c && (c.id == i)) cs
      ≡ weight (has_status status) (find_live i cs)
count-live none i [] k = refl
count-live (some s) i [] k = refl
count-live none i (c ∷ cs) k =
    ground
      (arith, count-live none i cs k.1, count-absent (has_status none) i cs, find_live-eq-none i cs)
count-live (some s) i (c ∷ cs) k = ground (
  arith,
  count-live (some s) i cs k.1,
  count-absent (has_status (some s)) i cs,
  find_live-eq-none i cs,
)

total-add_to_group :
    (s s' : CarStatus) (gs : List (CarStatus × ℕ))
    → total s (add_to_group s' gs) ≡ total s gs + (if status_eq s' s then 1 else 0)
total-add_to_group s s' [] = ground arith
total-add_to_group s s' ((s'', n) ∷ gs) = ground (arith, total-add_to_group s s' gs)

total-groups :
    (s : CarStatus) (cs : List Car) → total s (groups cs) ≡ count (has_status (some s)) cs
total-groups s [] = refl
total-groups s (c ∷ cs) =
    ground (arith, total-groups s cs, total-add_to_group s c.status (groups cs))

first-All :
    {A : Type 0} (p : A → Bool) (xs : List A) (a : A)
    → All (λ x. p x ≡ true) xs
    → first xs ≡ some a
    → p a ≡ true
first-All p [] a h e = absurd (cc)
first-All p (x ∷ xs) a h e = ground (arith, h.0)

All-insert_by :
    {A : Type 0} (P : A → Type 0) (le : A → A → Bool) (x : A) (xs : List A)
    → P x
    → All P xs
    → All P (insert_by le x xs)
All-insert_by P le x [] h a = (h, tt)
All-insert_by P le x (y ∷ ys) h a = ground (arith, All-insert_by P le x ys h a.1)

All-sort_by :
    {A : Type 0} (P : A → Type 0) (le : A → A → Bool) (xs : List A)
    → All P xs
    → All P (sort_by le xs)
All-sort_by P le [] a = tt
All-sort_by P le (x ∷ xs) a = All-insert_by P le x (sort_by le xs) a.0 (All-sort_by P le xs a.1)

All-keep : {A : Type 0} (p : A → Bool) (xs : List A) → All (λ x. p x ≡ true) (keep p xs)
All-keep p [] = tt
All-keep p (x ∷ xs) = ground (arith, All-keep p xs)

module _ {D : Database} {P : Publisher} where
  Writes-Ends :
      {A : Type 0} (w : World D P) (t u : Tables) (n : ℕ) (a : A) (r : Result A × World D P)
      (Q : A → Tables → Type 0)
      → Writes w t u n a r
      → Q a u
      → Ends w t r Q
  Writes-Ends w t u n a r Q (inl (s, e, v, _)) q =
      inl (a, s, e, ap (λ (v : View). v.committed) v, subst (λ (v : View). Q a v.visible) (sym v) q)
  Writes-Ends w t u n a r Q (inr (x, s, e, c, _)) q = inr (x, s, e, c)

module _ {D : Database} {P : Publisher} (L : IsDatabase D) where
  -- On a session with its documented behaviour, the SQLAlchemy repository of cars is a map from
  -- keys to live cars: reads, with or without a lock, look the key up; listings hold each live car
  -- of the status once, in ascending order, and the groups count them; an insert adds a fresh key,
  -- an update replaces the car and a soft delete takes it out, with every other key kept, or they
  -- raise an error of the database; none of them stores anything before the commit.
  pub sqlalchemy_cars-IsCarRepository : IsCarRepository (sqlalchemy_cars {D = D} {P = P})
  unfolding Cars.get_by_id Cars.get_by_id_for_update Cars.list Cars.count_by_status listed resume
  sqlalchemy_cars-IsCarRepository = record {
    gets = λ i w. refl;
    gets_locked = λ i w. refl;
    lists = λ status w keys. (
      _,
      refl,
      sort_by-IsSorted (λ (c : Car). c.id) (keep (has_status status) (seen w).cars),
      λ i.
          count-sort_by by_id (λ c. c.id == i) (keep (has_status status) (seen w).cars)
          ∙ count-keep (λ c. c.id == i) (has_status status) (seen w).cars
          ∙ count-live status i (seen w).cars keys,
    );
    counts = λ w. (groups (seen w).cars, refl, λ s. total-groups s (seen w).cars);
    adds = λ car w t u n e kept.
        Writes-Ends w t _ n _ _ (CarAdded n car u) (add_car-Writes L w car e) (
          refl,
          find_live-eq-none _ u.cars (
              subst (λ (v : View). find_car (D.next_car_id w.session) v.visible.cars ≡ none) e
                (L.fresh_car w.session)),
          λ j. ground arith,
        );
    updates = λ car old w t u n e keys kept there.
        Writes-Ends w t _ n _ _ (CarUpdated n car u) (update_car-Writes L w e car) (
          refl,
          λ j. ground (
            arith,
            find_live-put_car j (updated_car n car) u.cars,
            find_live-eq-some car.id u.cars old keys there,
          ),
        );
    soft_deletes = λ instant car w t u n e.
        Writes-Ends w t _ n _ _ (CarDeleted n instant car u) (soft_delete-Writes L w instant car e)
          (
            refl,
            λ j. ground (
              arith,
              find_live-put_car j (updated_car n (record car { deleted_at = some instant })) u.cars,
            ),
          );
  }

  -- On a session with its documented behaviour, the SQLAlchemy repository of rentals is a map from
  -- keys to rentals: reads, with or without a lock, look the key up; the active rental of a car is
  -- an open one of that car, and there is none if and only if no rental of it is open; the listing
  -- of active rentals holds each of them once, in ascending order, and their count is its length;
  -- an insert adds a fresh key and an update replaces the rental, with every other key kept, or
  -- they raise an error of the database; none of them stores anything before the commit.
  pub sqlalchemy_rentals-IsRentalRepository :
      IsRentalRepository (sqlalchemy_rentals {D = D} {P = P})
  unfolding Rentals.get_by_id Rentals.get_by_id_for_update Rentals.get_active_by_car
      Rentals.list_active Rentals.count_active active_of all_active resume
  sqlalchemy_rentals-IsRentalRepository = record {
    gets = λ i w. refl;
    gets_locked = λ i w. refl;
    gets_active = λ car_id w. (
      active_of car_id (seen w),
      refl,
      (
        active_of-eq-none car_id (seen w),
        λ h. elim (Option-cases (active_of car_id (seen w))) [
          | inl x ↦ x
          | inr (r, x) ↦ absurd (omega (arith, active_of-eq-some car_id (seen w) r x))
        ],
      ),
      λ r e.
          first-All (is_open_for car_id) _ r
            (All-sort_by _ by_id_desc _ (All-keep (is_open_for car_id) (seen w).rentals)) e,
    );
    lists_active = λ w. (
      all_active (seen w),
      refl,
      sort_by-IsSorted (λ (r : Rental). r.id) (keep is_active (seen w).rentals),
      λ p.
          count-sort_by Rentals.by_id p (keep is_active (seen w).rentals)
          ∙ count-keep p is_active (seen w).rentals,
      ap (λ (k : ℕ). (ok k, w))
          (sym (length-sort_by Rentals.by_id (keep is_active (seen w).rentals))),
    );
    adds = λ rental w t u n e.
        Writes-Ends w t _ n _ _ (RentalAdded n rental u) (add_rental-Writes L w rental e) (
          refl,
          subst (λ (v : View). find_rental (D.next_rental_id w.session) v.visible.rentals ≡ none) e
              (L.fresh_rental w.session),
          λ j. ground arith,
        );
    updates = λ rental old w t u n e there.
        Writes-Ends w t _ n _ _ (RentalUpdated n rental u) (update_rental-Writes L w e rental)
          (refl, λ j. ground (arith, find_rental-put_rental j (updated_rental n rental) u.rentals));
  }
