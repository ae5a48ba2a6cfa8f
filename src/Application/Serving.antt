-- ===== src/Application/Serving.antt =====
-- Sequences of requests to the application: the world, the ends and the samples after them.
use drive_now.Base.{
  ℕ, ◌+◌, ◌-◌, ◌/◌, ◌≤◌, ◌≡◌, ◌⊎◌, refl, sym, ap, subst, ◌∙◌, inl, inr, Bool, true, List, [], ◌∷◌,
  ◌++◌, arith, if◌then◌else◌, All, count, length, Bool-cases,
}
use drive_now.Database.{Database, IsDatabase, IsUp}
use drive_now.Messaging.{Publisher}
use drive_now.Schemas.Bodies.{Pydantic}
use drive_now.History.{IsSettled}
use drive_now.Api.Receiving.Routes.{
  post_car, get_cars, patch_car, remove_car, post_rental, post_end,
}
use drive_now.Api.Middleware.{returned, Server, Operation, Registry, record_sample}
use drive_now.Application.{
  Route, cars_router, rentals_router, Endpoint, health, metrics, api, route_of, AppState, Framework,
  Connection, connect, connect_all,
}
use drive_now.Application.Measured.{IsSending, IsFramework, named, is_api, connect-sample, ended}
use drive_now.Application.Answers.{IsStorable, run_endpoint-Responds}

-- The operation is one of these routes.
abbrev pub IsAmong : Operation → List Route → Type 0
IsAmong op [] = ⊥
IsAmong op (r ∷ rs) = (op ≡ named r) ⊎ IsAmong op rs

-- A sample of a route for cars or rentals, whose class is 4xx at most.
abbrev pub IsBounded : Operation × ℕ → Type 0
IsBounded (op, outcome) = IsAmong op (cars_router ++ rentals_router) × (outcome ≤ 4)

api-IsAmong :
    {V : Pydantic} (e : Endpoint V)
    → is_api e ≡ true
    → IsAmong (named (route_of e)) (cars_router ++ rentals_router)
api-IsAmong health h = absurd (cc)
api-IsAmong metrics h = absurd (cc)
api-IsAmong (api (post_car body)) h = inl refl
api-IsAmong (api (get_cars status)) h = inr (inl refl)
api-IsAmong (api (patch_car car_id body)) h = inr (inr (inl refl))
api-IsAmong (api (remove_car car_id)) h = inr (inr (inr (inl refl)))
api-IsAmong (api (post_rental body)) h = inr (inr (inr (inr (inl refl))))
api-IsAmong (api (post_end rental_id)) h = inr (inr (inr (inr (inr (inl refl)))))

-- What the registry holds after a request whose response is below 5xx.
module _ {V : Pydantic} (e : Endpoint V) (n elapsed : ℕ) (m m' : Registry) where
  sampled :
      n ≤ 422
      → (m' ≡ (if is_api e then record_sample (named (route_of e)) (n / 100) elapsed m else m))
      → All IsBounded m.operations_total
      → All IsBounded m'.operations_total
        × (length m'.operations_total ≡ (if is_api e then 1 else 0) + length m.operations_total)
  unfolding record_sample
  sampled l h b = elim (Bool-cases (is_api e)) [
    | inl x ↦ rw h (rw x (((api-IsAmong e x, omega arith), b), omega arith))
    | inr x ↦ rw h (rw x (b, omega arith))
  ]

-- Whether a request is for cars or rentals.
abbrev pub for_api : {V : Pydantic} → Connection V → Bool
for_api c = is_api c.endpoint

module _ {F : Framework} (W : IsFramework F) (S : Server) (sending : IsSending S) {V : Pydantic}
    {D : Database} {P : Publisher} (L : IsDatabase D) (up : IsUp D) where
  connect-Bounded :
      (c : Connection V) (s : S.State) (a : AppState D P)
      → IsStorable c.endpoint
      → IsSettled a.world
      → All IsBounded a.registry.operations_total
      → let (e, (_, b)) = connect F S c s a in
        (e ≡ returned)
        × IsSettled b.world
        × All IsBounded b.registry.operations_total
        × (length b.registry.operations_total
            ≡ (if for_api c then 1 else 0) + length a.registry.operations_total)
  connect-Bounded c s a storable settled bounded =
      let (n, responding, below, settled', same) =
        run_endpoint-Responds L up c.clock c.endpoint a storable settled in
      let (ends, world, _, sample) = connect-sample W S sending c s a in
      let (bounded', counted) =
        sampled c.endpoint n (c.stop - c.start) a.registry (connect F S c s a).1.1.registry below
          (sample ∙ rw responding (rw same refl)) bounded in
      (ends ∙ ap ended responding, subst IsSettled (sym world) settled', bounded', counted)

  -- If FastAPI and the server work as documented and the connection to the database is up, then
  -- serving any sequence of requests whose keys fit their INTEGER columns and whose texts have no
  -- NUL, from consistent tables between transactions, raises nothing through the middleware and
  -- leads to such tables. Each request for cars or rentals leaves one sample, the others none, and
  -- if each sample before names one of the six routes for cars and rentals with a class of 4xx at
  -- most, so does each one after.
  pub connect_all-Bounded :
      (cs : List (Connection V)) (s : S.State) (a : AppState D P)
      → All (λ (c : Connection V). IsStorable c.endpoint) cs
      → IsSettled a.world
      → All IsBounded a.registry.operations_total
      → let (es, (_, b)) = connect_all F S cs s a in
        All (λ e. e ≡ returned) es
        × IsSettled b.world
        × All IsBounded b.registry.operations_total
        × (length b.registry.operations_total
            ≡ count for_api cs + length a.registry.operations_total)
  unfolding connect_all
  connect_all-Bounded [] s a storable settled bounded = (tt, settled, bounded, omega arith)
  connect_all-Bounded (c ∷ cs) s a (storable, others) settled bounded =
      let (_, (s', a')) = connect F S c s a in
      let (ends, settled', bounded', counted) = connect-Bounded c s a storable settled bounded in
      let (all_end, later, bounded'', counted') =
        connect_all-Bounded cs s' a' others settled' bounded' in
      ((ends, all_end), later, bounded'', omega arith)
