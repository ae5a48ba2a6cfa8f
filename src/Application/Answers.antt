-- ===== src/Application/Answers.antt =====
-- The endpoints with the connection up: their responses, and what they change.
use drive_now.Base.{ℕ, ◌≤◌, ◌≡◌, refl, sym, subst, inl, inr, Option, none, some, true, arith}
use drive_now.Database.{Database, IsDatabase, IsUp}
use drive_now.Messaging.{Publisher}
use drive_now.Action.{Result, domain, database, World}
use drive_now.Schemas.Bodies.{Pydantic}
use drive_now.History.{IsSettled}
use drive_now.Api.{
  Body, car, cars, rental, empty, detail, internal_server_error, validation_error, Response,
  response, Clock, Request, post_car, get_cars, patch_car, remove_car, post_rental, post_end, serve,
}
use drive_now.Api.Storable.{is_none_or_storable}
use drive_now.Api.Statuses.{status_4xx}
use drive_now.Api.Contract.{Returned, Conforms, serve-Conforms}
use drive_now.Api.Serving.{serve-IsSettled, serve-status}
use drive_now.Api.Metrics.{Gauges, metrics-exact}
use drive_now.Api.Receiving.Routes.{receive, respond, serve_raw}
use drive_now.Application.{
  Endpoint, health, metrics, api, Reaction, responds, reaction_to, AppState, run_endpoint, scraped,
}

-- The response to an unexpected exception has the status of its handler.
abbrev Honest : (status : ℕ) → Body → Type 0
Honest status (car c) = Unit {0}
Honest status (cars cs) = Unit {0}
Honest status (rental r) = Unit {0}
Honest status empty = Unit {0}
Honest status (detail e) = Unit {0}
Honest status internal_server_error = status ≡ 500
Honest status validation_error = Unit {0}

abbrev IsHonest : Response → Type 0
IsHonest r = Honest r.status r.body

Returned-Honest : (r : Request) (status : ℕ) (b : Body) → Returned r b → Honest status b
Returned-Honest (post_car c) status b (x, e) = subst (Honest status) (sym e) tt
Returned-Honest (get_cars s) status b (x, e) = subst (Honest status) (sym e) tt
Returned-Honest (patch_car i c) status b (x, e) = subst (Honest status) (sym e) tt
Returned-Honest (remove_car i) status b e = subst (Honest status) (sym e) tt
Returned-Honest (post_rental c) status b (x, e) = subst (Honest status) (sym e) tt
Returned-Honest (post_end i) status b (x, e) = subst (Honest status) (sym e) tt

Conforms-IsHonest : (r : Request) (x : Response) → Conforms r x → IsHonest x
Conforms-IsHonest r x (inl (_, h)) = Returned-Honest r x.status x.body h
Conforms-IsHonest r x (inr (inl (domain e, p))) = subst IsHonest (sym p) tt
Conforms-IsHonest r x (inr (inl (database e, p))) = subst IsHonest (sym p) refl
Conforms-IsHonest r x (inr (inr p)) = subst IsHonest (sym p) tt

responds-below :
    (status : ℕ) (b : Body)
    → Honest status b
    → status ≤ 422
    → reaction_to (response status b) ≡ responds status
responds-below status (car c) h l = refl
responds-below status (cars cs) h l = refl
responds-below status (rental r) h l = refl
responds-below status empty h l = refl
responds-below status (detail e) h l = refl
responds-below status internal_server_error h l = absurd (omega arith)
responds-below status validation_error h l = refl

-- Whatever the request is converted to, PostgreSQL can take it.
abbrev pub IsStorable : {V : Pydantic} → Endpoint V → Type 0
IsStorable health = Unit {0}
IsStorable metrics = Unit {0}
IsStorable {V} (api raw) = is_none_or_storable (receive V raw) ≡ true

-- What an endpoint does with the connection up: it responds, and only works on the world.
abbrev pub Responds :
    {D : Database} {P : Publisher} → AppState D P → Reaction × AppState D P → Type 0
Responds a (o, b) =
    (n : ℕ) × (o ≡ responds n) × (n ≤ 422) × IsSettled b.world × (b.registry ≡ a.registry)

module _ {D : Database} {P : Publisher} (L : IsDatabase D) (up : IsUp D) where
  respond-below :
      (clock : Clock) (o : Option Request) (w : World D P)
      → is_none_or_storable o ≡ true
      → IsSettled w
      → ((respond clock o w).0.status ≤ 422)
        × IsSettled (respond clock o w).1
        × IsHonest (respond clock o w).0
  respond-below clock none w b s = (omega arith, s, tt)
  respond-below clock (some r) w b s = (
    rw (serve-status L up clock r s.0 w b s.1 s.2) (status_4xx clock r s.0),
    serve-IsSettled L clock r w s,
    Conforms-IsHonest r (serve clock r w).0 (serve-Conforms clock r w),
  )

  pub run_endpoint-Responds :
      {V : Pydantic} (clock : Clock) (e : Endpoint V) (a : AppState D P)
      → IsStorable e
      → IsSettled a.world
      → Responds a (run_endpoint clock e a)
  unfolding run_endpoint serve_raw
  run_endpoint-Responds clock health a b s = (200, refl, omega arith, s, refl)
  run_endpoint-Responds clock metrics a b s =
      let (g, e, _, _) = metrics-exact a.world in
      subst (λ (r : Result Gauges × World D P). Responds a (scraped r a)) (sym e)
        (200, refl, omega arith, s, refl)
  run_endpoint-Responds {V} clock (api raw) a b s =
      let (l, s', h) = respond-below clock (receive V raw) a.world b s in
      let r = (respond clock (receive V raw) a.world).0 in
      (r.status, responds-below r.status r.body h l, l, s', refl)
