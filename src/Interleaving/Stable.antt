-- ===== src/Interleaving/Stable.antt =====
-- What a transaction knows, from one state of the committed tables to a later one.
use drive_now.Base.{ℕ, ◌≡◌, refl, ◌∙◌, inl, inr, none, some, arith, Option-cases}
use drive_now.Models.{Car, Rental}
use drive_now.Models.Tables.{Tables}
use drive_now.Repositories.Rentals.{active_of}
use drive_now.Repositories.Lookup.{active_of-eq-none, active_of-eq-some}
use drive_now.History.{Call, add, update, delete, register, finish}
use drive_now.Interleaving.Points.{
  Point, ready, candidate, locked, written_car, written_update, written_retired, written_rental,
  written_return, refused, committed, aborted, holds_car,
}
use drive_now.Interleaving.Facts.{Known, IsOf, IsAbout, IsCandidate, MayRetire, MayRent, MayReturn}
use drive_now.Interleaving.Frame.{Frames, Lasting}

free-Frames : (c : ℕ) (t t' : Tables) → Frames c t t' → active_of c t ≡ none → active_of c t' ≡ none
free-Frames c t t' f e = elim (Option-cases (active_of c t')) [
  | inl x ↦ x
  | inr (r, x) ↦
      let some_row = active_of-eq-some c t' r x in
      let no_row = active_of-eq-none c t e in let same = f.opened in absurd (omega arith)
]

IsOf-Lasting : (i c : ℕ) (t t' : Tables) → Lasting t.rentals t'.rentals → IsOf i c t → IsOf i c t'
IsOf-Lasting i c t t' l (r, there, same) =
    let (r', there', same') = l i r there in (r', there', same' ∙ same)

IsAbout-Frames :
    (call : Call) (car : Car) (t t' : Tables)
    → Lasting t.rentals t'.rentals
    → IsAbout call car t
    → IsAbout call car t'
IsAbout-Frames (add dto) car t t' l h = h
IsAbout-Frames (update car_id dto) car t t' l h = h
IsAbout-Frames (delete instant car_id) car t t' l h = h
IsAbout-Frames (register today dto) car t t' l h = h
IsAbout-Frames (finish today rental_id) car t t' l h = IsOf-Lasting rental_id car.id t t' l h

IsCandidate-Frames :
    (call : Call) (r : Rental) (t t' : Tables)
    → Lasting t.rentals t'.rentals
    → IsCandidate call r t
    → IsCandidate call r t'
IsCandidate-Frames (finish today rental_id) r t t' l h = IsOf-Lasting rental_id r.car_id t t' l h
IsCandidate-Frames (add dto) r t t' l h = h
IsCandidate-Frames (update car_id dto) r t t' l h = h
IsCandidate-Frames (delete instant car_id) r t t' l h = h
IsCandidate-Frames (register today dto) r t t' l h = h

retire-Frames :
    (call : Call) (car : Car) (t t' : Tables)
    → Frames car.id t t'
    → MayRetire call car t
    → MayRetire call car t'
retire-Frames (delete instant car_id) car t t' f (same, free) =
    (same, free-Frames car.id t t' f free)
retire-Frames (add dto) car t t' f h = h
retire-Frames (update car_id dto) car t t' f h = h
retire-Frames (register today dto) car t t' f h = h
retire-Frames (finish today rental_id) car t t' f h = h

rent-Frames :
    (call : Call) (car : Car) (t t' : Tables)
    → Frames car.id t t'
    → MayRent call car t
    → MayRent call car t'
rent-Frames (register today dto) car t t' f (starts, same, av, free) =
    (starts, same, av, free-Frames car.id t t' f free)
rent-Frames (add dto) car t t' f h = h
rent-Frames (update car_id dto) car t t' f h = h
rent-Frames (delete instant car_id) car t t' f h = h
rent-Frames (finish today rental_id) car t t' f h = h

return-Frames :
    (call : Call) (r : Rental) (car : Car) (t t' : Tables)
    → Frames car.id t t'
    → MayReturn call r car t
    → MayReturn call r car t'
return-Frames (finish today rental_id) r car t t' f (there, same, out, due) =
    (f.rows rental_id r there same, same, out, due)
return-Frames (add dto) r car t t' f h = h
return-Frames (update car_id dto) r car t t' f h = h
return-Frames (delete instant car_id) r car t t' f h = h
return-Frames (register today dto) r car t t' f h = h

-- What is known lasts.
pub Known-Frames :
    (call : Call) (p : Point) (t t' : Tables)
    → Known call p t
    → ((c : ℕ) → holds_car p ≡ some c → Frames c t t')
    → Lasting t.rentals t'.rentals
    → Known call p t'
Known-Frames call (candidate r) t t' h f l = IsCandidate-Frames call r t t' l h
Known-Frames call (locked car) t t' (live, h) f l =
    ((f car.id refl).live car live, IsAbout-Frames call car t t' l h)
Known-Frames call (written_update car) t t' (live, h) f l = ((f car.id refl).live car live, h)
Known-Frames call (written_retired car) t t' (live, h) f l =
    ((f car.id refl).live car live, retire-Frames call car t t' (f car.id refl) h)
Known-Frames call (written_rental car) t t' (live, h) f l =
    ((f car.id refl).live car live, rent-Frames call car t t' (f car.id refl) h)
Known-Frames call (written_return r car) t t' (live, h) f l =
    ((f car.id refl).live car live, return-Frames call r car t t' (f car.id refl) h)
Known-Frames call written_car t t' h f l = h
Known-Frames call ready t t' h f l = h
Known-Frames call (refused e) t t' h f l = h
Known-Frames call committed t t' h f l = h
Known-Frames call aborted t t' h f l = h
