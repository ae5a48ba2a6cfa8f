-- ===== src/Application/Measured.antt =====
-- The sample that one request to the application leaves.
use Prim.Native.String.{◌++◌ as join}
use text.Mathlib.Text.{◌==◌ as str_eq, starts_with}
use text.Mathlib.TextPositions.{starts_with-append}
use text.Mathlib.TextEquality.{eq_iff}
use drive_now.Base.{
  ℕ, ◌≡◌, refl, ap, subst, ◌∙◌, inl, inr, ◌-◌, ◌/◌, String, Bool, true, false, List, [], ◌∷◌, arith,
  if◌then◌else◌, Bool-cases, is_among, All,
}
use drive_now.Database.{Database}
use drive_now.Messaging.{Publisher}
use drive_now.Schemas.Bodies.{Pydantic}
use drive_now.Api.Receiving.Routes.{
  post_car, get_cars, patch_car, remove_car, post_rental, post_end,
}
use drive_now.Api.Middleware.{
  Ending, returned, raised, Message, Server, Exchange, Operation, record_sample, plain, set_route,
  is_measured, skip_paths, operation,
}
use drive_now.Api.Middleware.Samples.{last_status, outcome, is_sampled, call-plain, call-samples}
use drive_now.Application.{
  Route, template, Endpoint, health, metrics, api, route_of, Reaction, responds, fails, AppState,
  run_endpoint, Framework, Connection, opened, connect,
}

-- A server whose `send` never raises.
abbrev pub IsSending : Server → Type 0
IsSending S = (message : Message) (s : S.State) → (S.send message s).0 ≡ returned

-- What FastAPI documents, on such a server: a matched route is put into the scope; a response is
-- sent by one start with its status, and an exception without a handler inside is raised.
pub record IsFramework (F : Framework) : Type 1 where
  pub sends_response :
      (S : Server) (t : String) (status : ℕ) (x : Exchange S)
      → IsSending S
      → ((plain (F t (responds status)) x).0 ≡ returned)
        × ((plain (F t (responds status)) x).1.scope ≡ (set_route t x).scope)
        × (last_status (F t (responds status)) x 500 ≡ status)
  pub raises_through :
      (S : Server) (t : String) (x : Exchange S)
      → IsSending S
      → ((plain (F t fails) x).0 ≡ raised) × ((plain (F t fails) x).1.scope ≡ (set_route t x).scope)

-- The class of the response that the client gets: an exception that goes through the middleware is
-- answered by 500 outside.
abbrev pub class_of : Reaction → ℕ
class_of (responds status) = status / 100
class_of fails = 5

abbrev pub ended : Reaction → Ending
ended (responds status) = returned
ended fails = raised

-- The operation that a sample names.
abbrev pub named : Route → Operation
named r = record { method = r.method; template = template r }

abbrev pub is_api : {V : Pydantic} → Endpoint V → Bool
is_api health = false
is_api metrics = false
is_api (api raw) = true

-- A path behind a prefix that a text does not start with is another text.
apart : (p s k : String) → starts_with k p ≡ false → str_eq (join p s) k ≡ false
apart p s k h = elim (Bool-cases (str_eq (join p s) k)) [
  | inr x ↦ x
  | inl x ↦
      let same = (eq_iff (join p s) k).0 x in
      absurd (
        ground
          (arith, subst (λ (t : String). starts_with t p ≡ true) same (starts_with-append p s)))
]

not-among :
    (p s : String) (ks : List String)
    → All (λ k. starts_with k p ≡ false) ks
    → is_among (join p s) ks ≡ false
not-among p s [] h = refl
not-among p s (k ∷ ks) (h, hs) = rw (apart p s k h) (not-among p s ks hs)

-- Of the application's paths, the middleware skips those of health and metrics.
is_measured-opened :
    {V : Pydantic} (S : Server) (e : Endpoint V) (s : S.State)
    → is_measured (opened {S = S} e s).scope ≡ is_api e
is_measured-opened S health s = refl
is_measured-opened S metrics s = refl
is_measured-opened S (api (post_car body)) s = refl
is_measured-opened S (api (get_cars status)) s = refl
is_measured-opened S (api (patch_car car_id body)) s =
    rw (not-among "/cars/" car_id skip_paths (refl, (refl, (refl, (refl, (refl, (refl, tt)))))))
      refl
is_measured-opened S (api (remove_car car_id)) s =
    rw (not-among "/cars/" car_id skip_paths (refl, (refl, (refl, (refl, (refl, (refl, tt)))))))
      refl
is_measured-opened S (api (post_rental body)) s = refl
is_measured-opened S (api (post_end rental_id)) s =
    rw
      (not-among "/rentals/" (join rental_id "/end") skip_paths
        (refl, (refl, (refl, (refl, (refl, (refl, tt)))))))
      refl

is_sampled-ended : (o : Reaction) → is_sampled (ended o) ≡ true
is_sampled-ended (responds status) = refl
is_sampled-ended fails = refl

operation-named :
    {V : Pydantic} {S : Server} (e : Endpoint V) (x : Exchange S)
    → x.scope.method ≡ (route_of e).method
    → operation (set_route (template (route_of e)) x).scope ≡ named (route_of e)
operation-named health x h = rw h refl
operation-named metrics x h = rw h refl
operation-named (api (post_car body)) x h = rw h refl
operation-named (api (get_cars status)) x h = rw h refl
operation-named (api (patch_car car_id body)) x h = rw h refl
operation-named (api (remove_car car_id)) x h = rw h refl
operation-named (api (post_rental body)) x h = rw h refl
operation-named (api (post_end rental_id)) x h = rw h refl

module _ {F : Framework} (L : IsFramework F) {S : Server} (up : IsSending S) where
  -- The application of a route on a fresh exchange: its end, its scope and its class.
  inner :
      (t : String) (o : Reaction) (x : Exchange S)
      → ((plain (F t o) x).0 ≡ ended o)
        × ((plain (F t o) x).1.scope ≡ (set_route t x).scope)
        × (outcome (ended o) (last_status (F t o) x 500) ≡ class_of o)
  inner t (responds status) x =
      let (e, s, c) = L.sends_response S t status x up in (e, s, ap (λ n. n / 100) c)
  inner t fails x = let (e, s) = L.raises_through S t x up in (e, s, refl)

module _ {F : Framework} (L : IsFramework F) (S : Server) (up : IsSending S) where
  -- If FastAPI and the server work as documented, a request to the application changes the world
  -- and the gauges as its endpoint does, it ends by an exception if the endpoint meets one that is
  -- not a `DomainError` and returns else, and it leaves one sample if it is for cars or rentals,
  -- and else none. The sample names the method and the template of its route, the class of the
  -- response, 5xx after such an exception, and the time between its start and its end.
  pub connect-sample :
      {V : Pydantic} {D : Database} {P : Publisher} (c : Connection V) (s : S.State)
      (a : AppState D P)
      → let (o, a') = run_endpoint c.clock c.endpoint a in
        let (e, (_, b)) = connect F S c s a in
        (e ≡ ended o)
        × (b.world ≡ a'.world)
        × (b.gauges ≡ a'.gauges)
        × (b.registry ≡ (
            if is_api c.endpoint
            then record_sample
                (named (route_of c.endpoint))
                (class_of o)
                (c.stop - c.start)
                a'.registry
            else a'.registry))
  unfolding connect
  connect-sample {V} c s a =
      let (o, a') = run_endpoint c.clock c.endpoint a in
      let app = F (template (route_of c.endpoint)) o in
      let x = opened {S = S} c.endpoint s in
      let (ends, scope, class) = inner L up (template (route_of c.endpoint)) o x in
      (
        (call-plain c.start c.stop app x a'.registry).0 ∙ ends,
        refl,
        refl,
        call-samples c.start c.stop app x a'.registry
            ∙ rw (is_measured-opened S c.endpoint s) (
                rw ends (
                  rw scope (
                    rw class (
                      rw (is_sampled-ended o)
                        (rw (operation-named c.endpoint x refl) (ground arith)))))),
      )
