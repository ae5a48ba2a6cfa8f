-- ===== src/Lifecycle/Outcome.antt =====
-- From the result of a method back to its promise.
use drive_now.Base.{◌≡◌, refl, subst}
use drive_now.Models.Tables.{Tables}
use drive_now.Database.{Database, IsClean}
use drive_now.Messaging.{Publisher}
use drive_now.Action.{Result, ok, raised, domain, World}
use drive_now.Services.Errors.{DomainError}
use drive_now.Fleet.{Verdict, accepts, refuses}
use drive_now.Fleet.Consistent.{IsConsistent}
use drive_now.Fleet.Invariant.{Keeps}
use drive_now.Refinement.{Fulfils, Report}
use drive_now.Refinement.Total.{answer}

pub answer-refuses :
    {A B : Type 0} (out : A → B) (v : Verdict A) (e : DomainError)
    → answer out v ≡ raised (domain e)
    → v ≡ refuses e
answer-refuses out (accepts a t) e p = cc
answer-refuses out (refuses x) e p = cc

pub answer-accepts :
    {A B : Type 0} (out : A → B) (v : Verdict A) (b : B)
    → answer out v ≡ ok b
    → (a : A) × (t : Tables) × (v ≡ accepts a t) × (b ≡ out a)
answer-accepts out (accepts a t) b p = (a, t, refl, cc)
answer-accepts out (refuses x) b p = absurd (cc)

module _ {D : Database} {P : Publisher} where
  -- A method that returned `b`: its promise was accepted, and holds now.
  abbrev pub Returned : {A B : Type 0} → Verdict A → (A → B) → B → World D P → Type 0
  Returned {A = A} v out b w =
      (a : A) × (t : Tables) × (v ≡ accepts a t)
      × (b ≡ out a)
      × IsClean t (D.view w.session)
      × IsConsistent t

  pub Fulfils-Returned :
      {A B : Type 0} (M : Type 0) (t : Tables) (v : Verdict A) (out : A → B) (report : A → Report)
      (w₀ : World D P) (r : Result B × World D P) (b : B)
      → Fulfils M t v out report w₀ r
      → Keeps v
      → r.0 ≡ ok b
      → Returned v out b r.1
  Fulfils-Returned M t v out report w₀ r b h k e =
      let (a, t', p, q, _, clean, _) = subst (λ x. Fulfils M t v out report w₀ (x, r.1)) e h in
      (a, t', p, q, clean, subst Keeps p k)
