-- ===== src/Api/Serving.antt =====
-- Requests served one after the other: the tables after them and the status codes.
use drive_now.Base.{
  ℕ, ◌≤◌, ◌≡◌, refl, sym, ◌∙◌, ap, subst, inl, inr, Option, none, some, true, List, [], ◌∷◌, ltb,
  if◌then◌else◌, Bool-cases, Option-cases, All, map,
}
use drive_now.Models.{Car}
use drive_now.Models.Tables.{Tables}
use drive_now.Database.{Database, IsDatabase, IsUp, IsClean}
use drive_now.Messaging.{Publisher}
use drive_now.Action.{Action, Result, World}
use drive_now.Schemas.{car_read}
use drive_now.Schemas.Validation.{
  validate_car, validate_patch, validate_rental, validate_rental-valid,
}
use drive_now.Services.Cars.{add_car, update_car, delete_car}
use drive_now.Services.Rentals.{register_rental, end_rental}
use drive_now.Fleet.{Verdict}
use drive_now.Fleet.Consistent.{IsConsistent}
use drive_now.Refinement.Cars.{updated}
use drive_now.Refinement.Total.{
  answer, add_car-answer, update_car-answer, delete_car-answer, register_rental-answer,
  end_rental-answer,
}
use drive_now.History.{add, update, delete, register, finish, IsSettled, perform-IsSettled}
use drive_now.Lifecycle.Listing.{list_cars-listed}
use drive_now.Api.{
  Body, cars, empty, show_car, show_rental, reply, Response, Clock, Request, post_car, get_cars,
  patch_car, remove_car, post_rental, post_end, serve, serve_all, route, validated, positive,
}
use drive_now.Api.Storable.{is_storable}
use drive_now.Api.Statuses.{
  expected, code, reply-answer, code-register, code-finish, code-delete, code-update, status_4xx,
  checked, patching, removing, ending, registering,
}

module _ {D : Database} {P : Publisher} (L : IsDatabase D) where
  positive-IsSettled :
      (i : ℕ) (f : World D P → Response × World D P) (w : World D P)
      → IsSettled w
      → IsSettled (f w).1
      → IsSettled (positive i f w).1
  positive-IsSettled i f w s h = elim (Bool-cases (ltb 0 i)) [ inl x ↦ rw x h | inr x ↦ rw x s ]

  validated-IsSettled :
      {B : Type 0} (o : Option B) (f : B → World D P → Response × World D P) (w : World D P)
      → IsSettled w
      → ((dto : B) → o ≡ some dto → IsSettled (f dto w).1)
      → IsSettled (validated o f w).1
  validated-IsSettled none f w s h = s
  validated-IsSettled (some dto) f w s h = h dto refl

  pub serve-IsSettled :
      (clock : Clock) (r : Request) (w : World D P) → IsSettled w → IsSettled (serve clock r w).1
  unfolding serve
  serve-IsSettled clock (post_car b) w s =
      validated-IsSettled (validate_car clock.this_year b) (λ dto. route 201 show_car (add_car dto))
        w s (λ dto e. perform-IsSettled L (add dto) w tt s)
  serve-IsSettled clock (get_cars status) w s =
      let (cs, e, _, _) = list_cars-listed status w in
      subst (λ (x : Result (List Car) × World D P). IsSettled x.1) (sym e) s
  serve-IsSettled clock (patch_car car_id b) w s =
      positive-IsSettled car_id
        (validated (validate_patch clock.this_year b)
          (λ dto. route 200 show_car (update_car car_id dto)))
        w s
        (validated-IsSettled (validate_patch clock.this_year b)
          (λ dto. route 200 show_car (update_car car_id dto)) w s
          (λ dto e. perform-IsSettled L (update car_id dto) w tt s))
  serve-IsSettled clock (remove_car car_id) w s =
      positive-IsSettled car_id (route 204 (λ c. empty) (delete_car clock.instant car_id)) w s
        (perform-IsSettled L (delete clock.instant car_id) w tt s)
  serve-IsSettled clock (post_rental b) w s =
      validated-IsSettled (validate_rental b)
        (λ dto. route 201 show_rental (register_rental clock.today dto)) w s
        (λ dto e.
          perform-IsSettled L (register clock.today dto) w (validate_rental-valid b dto e).3 s)
  serve-IsSettled clock (post_end rental_id) w s =
      positive-IsSettled rental_id (route 200 show_rental (end_rental clock.today rental_id)) w s
        (perform-IsSettled L (finish clock.today rental_id) w tt s)

  -- From a session between transactions at consistent tables, serving any sequence of requests,
  -- whatever they send and whatever fails, leads to such a session and such tables.
  pub serve_all-IsSettled :
      (rs : List (Clock × Request)) (w : World D P) → IsSettled w → IsSettled (serve_all rs w).1
  unfolding serve_all
  serve_all-IsSettled [] w s = s
  serve_all-IsSettled ((clock, r) ∷ rest) w s =
      serve_all-IsSettled rest (serve clock r w).1 (serve-IsSettled clock r w s)

module _ {D : Database} {P : Publisher} (L : IsDatabase D) (up : IsUp D) where
  positive-status :
      (i : ℕ) (f : World D P → Response × World D P) (w : World D P) (n : ℕ)
      → (f w).0.status ≡ n
      → (positive i f w).0.status ≡ (if ltb 0 i then n else 422)
  positive-status i f w n h = elim (Bool-cases (ltb 0 i)) [ inl x ↦ rw x h | inr x ↦ rw x refl ]

  route-status :
      {A B : Type 0} (n : ℕ) (f : B → Body) (method : Action D P B) (out : A → B) (v : Verdict A)
      (w : World D P) (m : ℕ)
      → (method w).0 ≡ answer out v
      → code n v ≡ m
      → (route n f method w).0.status ≡ m
  route-status n f method out v w m e c =
      ap (λ r. (reply n f r).status) e ∙ reply-answer n f out v ∙ c

  -- The status code of a request, were there no bounds to the columns of the tables.
  serve-expected :
      (clock : Clock) (r : Request) (t : Tables) (w : World D P)
      → IsClean t (D.view w.session)
      → IsConsistent t
      → (serve clock r w).0.status ≡ expected clock r t
  unfolding serve
  serve-expected clock (post_car b) t w clean k =
      elim (Option-cases (validate_car clock.this_year b)) [
        | inl x ↦ rw x refl
        | inr (dto, x) ↦
            rw x (ap (λ r. (reply 201 show_car r).status) (add_car-answer L up dto t w clean k))
      ]
  serve-expected clock (get_cars status) t w clean k =
      let (cs, e, _, _) = list_cars-listed status w in
      ap
        (λ (x : Result (List Car) × World D P).
          (reply 200 (λ cs. cars (map car_read cs)) x.0).status)
        e
  serve-expected clock (patch_car car_id b) t w clean k =
      positive-status car_id
        (validated (validate_patch clock.this_year b)
          (λ dto. route 200 show_car (update_car car_id dto)))
        w (checked (validate_patch clock.this_year b) (λ dto. patching car_id dto t))
        (elim (Option-cases (validate_patch clock.this_year b)) [
          | inl x ↦ rw x refl
          | inr (dto, x) ↦ rw x (
              route-status 200 show_car (update_car car_id dto) updated _ w (patching car_id dto t)
                (update_car-answer L up car_id dto t w clean k) (code-update _ car_id dto t))
        ])
  serve-expected clock (remove_car car_id) t w clean k =
      positive-status car_id (route 204 (λ c. empty) (delete_car clock.instant car_id)) w
        (removing car_id t)
        (route-status 204 (λ c. empty) (delete_car clock.instant car_id) (λ c. c) _ w
          (removing car_id t) (delete_car-answer L up clock.instant car_id t w clean k)
          (code-delete _ clock.instant car_id t k))
  serve-expected clock (post_rental b) t w clean k = elim (Option-cases (validate_rental b)) [
    | inl x ↦ rw x refl
    | inr (dto, x) ↦ rw x (
        route-status 201 show_rental (register_rental clock.today dto) (λ both. both.0) _ w
          (registering clock.today dto t)
          (register_rental-answer L up clock.today dto t w clean k
            (validate_rental-valid b dto x).3)
          (code-register _ _ clock.today dto t k))
  ]
  serve-expected clock (post_end rental_id) t w clean k =
      positive-status rental_id (route 200 show_rental (end_rental clock.today rental_id)) w
        (ending clock.today rental_id t)
        (route-status 200 show_rental (end_rental clock.today rental_id) (λ both. both.0) _ w
          (ending clock.today rental_id t)
          (end_rental-answer L up clock.today rental_id t w clean k)
          (code-finish _ clock.today rental_id t))

  -- With the connection up, at consistent tables between transactions, the status code of each
  -- request whose keys fit their INTEGER columns and whose texts have no NUL is the one that
  -- `expected` decides from the request, the clock and the tables: 422 for a part that fails its
  -- validation, 404 for a row that is not found, 409 for a conflict, and the route's own code else.
  pub serve-status :
      (clock : Clock) (r : Request) (t : Tables) (w : World D P)
      → is_storable r ≡ true
      → IsClean t (D.view w.session)
      → IsConsistent t
      → (serve clock r w).0.status ≡ expected clock r t
  serve-status clock r t w storable clean k = serve-expected clock r t w clean k

  -- With the connection up, from consistent tables between transactions, no response to any
  -- sequence of requests that PostgreSQL can take has a status code above 422.
  pub serve_all-below_500 :
      (rs : List (Clock × Request)) (w : World D P)
      → All (λ (r : Clock × Request). is_storable r.1 ≡ true) rs
      → IsSettled w
      → All (λ (r : Response). r.status ≤ 422) (serve_all rs w).0
  unfolding serve_all
  serve_all-below_500 [] w b s = tt
  serve_all-below_500 ((clock, r) ∷ rest) w (b, bs) s = (
    rw (serve-status clock r s.0 w b s.1 s.2) (status_4xx clock r s.0),
    serve_all-below_500 rest (serve clock r w).1 bs (serve-IsSettled L clock r w s),
  )
