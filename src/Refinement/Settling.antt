-- ===== src/Refinement/Settling.antt =====
-- The body of a transaction and the transaction around it, against a promise of `Fleet`. `M` says when the
-- constraints admit what is written: where it holds and the connection is up, no error of the
-- database can arise.
use mathlib.Core.Path.{subst₂}
use drive_now.Base.{◌≡◌, sym, ap, subst, inl, inr, ◌∙◌}
use drive_now.Models.Tables.{Tables, Satisfies}
use drive_now.Database.{Database, IsDatabase, IsUp, Done, IsClean, settled}
use drive_now.Action.Rules.{done≢failed}
use drive_now.Messaging.{Publisher}
use drive_now.Action.{
  Action, Result, ok, raised, domain, database, World, resume, ◌>>=◌, ◌>>◌, pure, finish,
}
use drive_now.Services.Transaction.{transaction, or_rollback, commit, rollback}
use drive_now.Fleet.{Verdict, accepts, refuses}
use drive_now.Fleet.Invariant.{Keeps}

-- The tables that a promise stores meet the constraints of the schema.
abbrev pub Admits : {A : Type 0} → Verdict A → Type 0
Admits (accepts a t) = Satisfies t
Admits (refuses e) = Unit {0}

pub Keeps-Admits : {A : Type 0} (v : Verdict A) → Keeps v → Admits v
Keeps-Admits (accepts a t) k = k.rows
Keeps-Admits (refuses e) k = tt

module _ {D : Database} {P : Publisher} where
  -- No event was published and no line was written.
  abbrev pub IsQuiet : World D P → World D P → Type 0
  IsQuiet w₀ w = (w.publisher ≡ w₀.publisher) × (w.log ≡ w₀.log)

  -- How the body of a transaction ends that began at the tables `t`, against the promise `v`. Nothing
  -- is stored yet. Where it returns, what the transaction is about to commit is what was promised.
  abbrev pub Ends :
      {A : Type 0} → Type 0 → Tables → Verdict A → World D P → Result A × World D P → Type 0
  Ends M t v w₀ (ok a, w) =
      (v ≡ accepts a (settled (D.view w.session)))
      × ((D.view w.session).committed ≡ t)
      × IsQuiet w₀ w
  Ends M t v w₀ (raised (domain e), w) =
      (v ≡ refuses e) × ((D.view w.session).committed ≡ t) × IsQuiet w₀ w
  Ends M t v w₀ (raised (database e), w) =
      ((D.view w.session).committed ≡ t) × IsQuiet w₀ w × (M → ¬ IsUp D)

  Ends-IsQuiet :
      {A : Type 0} (M : Type 0) (t : Tables) (v : Verdict A) (w₀ w : World D P)
      (r : Result A × World D P)
      → IsQuiet w₀ w
      → Ends M t v w r
      → Ends M t v w₀ r
  Ends-IsQuiet M t v w₀ w (ok a, w') q (p, c, q') = (p, c, (q'.0 ∙ q.0, q'.1 ∙ q.1))
  Ends-IsQuiet M t v w₀ w (raised (domain e), w') q (p, c, q') = (p, c, (q'.0 ∙ q.0, q'.1 ∙ q.1))
  Ends-IsQuiet M t v w₀ w (raised (database e), w') q (c, q', b) = (c, (q'.0 ∙ q.0, q'.1 ∙ q.1), b)

  -- A body and its promise go on as another body and its promise do, after it has taken locks, which
  -- changes neither the publisher nor the log.
  pub Ends-step :
      {A : Type 0} (M : Type 0) (t : Tables) {v v' : Verdict A} (w₀ w : World D P)
      {r r' : Result A × World D P}
      → r ≡ r'
      → v ≡ v'
      → IsQuiet w₀ w
      → Ends M t v' w r'
      → Ends M t v w₀ r
  Ends-step {A} M t {v} {v'} w₀ w {r} {r'} e f q h =
      subst₂ (λ r v. Ends {A = A} M t v w₀ r) (sym e) (sym f) (Ends-IsQuiet M t v' w₀ w r' q h)

  -- How the transaction ends: what was promised is stored, or the method raises and nothing is.
  -- Either way no change is left to be flushed.
  abbrev pub Settles :
      {A : Type 0} → Type 0 → Tables → Verdict A → World D P → Result A × World D P → Type 0
  Settles M t v w₀ (ok a, w) =
      (t' : Tables) × (v ≡ accepts a t')
      × Satisfies t'
      × IsClean t' (D.view w.session)
      × IsQuiet w₀ w
  Settles M t v w₀ (raised (domain e), w) =
      (v ≡ refuses e) × IsClean t (D.view w.session) × IsQuiet w₀ w
  Settles M t v w₀ (raised (database e), w) =
      IsClean t (D.view w.session) × IsQuiet w₀ w × (M → ¬ IsUp D)

module _ {D : Database} {P : Publisher} (L : IsDatabase D) where
  rolled_back :
      {t : Tables} (w : World D P)
      → (D.view w.session).committed ≡ t
      → IsClean t (D.view (rollback w).session)
  rolled_back w e =
      subst (λ t. IsClean t (D.view (D.rollback w.session))) e (L.rollback_view w.session)

  -- What the transaction does once its body has ended.
  abbrev conclude : {A : Type 0} → Result A × World D P → Result A × World D P
  conclude (r, w) = or_rollback (((λ _. (r, w)) >>= λ a. commit >> pure a) w)

  conclude-Settles :
      {A : Type 0} (M : Type 0) (t : Tables) (v : Verdict A) (w₀ : World D P) (r : Result A)
      (w : World D P)
      → (M → Admits v)
      → Ends M t v w₀ (r, w)
      → Settles M t v w₀ (conclude (r, w))
  unfolding resume
  conclude-Settles M t v w₀ (ok a) w admits (p, c, q) = elim (L.commit_view w.session) [
    | inl (s, f, clean, rows) ↦ resume f (settled (D.view w.session), p, rows, clean, q)
    | inr (x, s, f, kept) ↦ resume f (
      rolled_back (record w { session = s }) (kept ∙ c),
      q,
      λ m up.
          done≢failed
            (sym (up.commit_done w.session (subst Admits p (admits m))) ∙ ap (λ r. r.0) f),
    )
  ]
    where
      resume :
          {d : Done × D.Session}
          → D.commit w.session ≡ d
          → Settles M t v w₀ (or_rollback (((λ w'. finish d w') >> pure a) w))
          → Settles M t v w₀ (conclude (ok a, w))
      resume f h =
          subst (λ d. Settles M t v w₀ (or_rollback (((λ w'. finish d w') >> pure a) w))) (sym f) h
  conclude-Settles M t v w₀ (raised (domain e)) w admits (p, c, q) = (p, rolled_back w c, q)
  conclude-Settles M t v w₀ (raised (database e)) w admits (c, q, b) = (rolled_back w c, q, b)

  pub transaction-Settles :
      {A : Type 0} (M : Type 0) (t : Tables) (v : Verdict A) (body : Action D P A) (w : World D P)
      → (M → Admits v)
      → Ends M t v w (body w)
      → Settles M t v w (transaction body w)
  unfolding transaction resume
  transaction-Settles M t v body w admits h =
      conclude-Settles M t v w (body w).0 (body w).1 admits h
