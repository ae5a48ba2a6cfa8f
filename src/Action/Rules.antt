-- ===== src/Action/Rules.antt =====
-- How an assignment and a flush change the view of a session.
use drive_now.Base.{ℕ, ◌≡◌, ◌≢◌, refl, sym, ◌∙◌, ap, subst, ◌⊎◌, inl, inr, List, [], ◌++◌, ◌∷◌}
use drive_now.Models.Tables.{Tables, Change, apply_all, Satisfies}
use drive_now.Database.{Database, IsDatabase, IsUp, DbError, done, failed, View, at, settled}

pub done≢failed : {x : DbError} → done ≢ failed x
done≢failed p = cc

pub stored :
    {v : View} {t u : Tables} {cs : List Change} {n : ℕ} → v ≡ at t u cs n → v.committed ≡ t
stored e = ap (λ (v : View). v.committed) e

module _ {D : Database} (L : IsDatabase D) where
  -- The view after an assignment.
  pub at-assign :
      (c : Change) (s : D.Session) {t u : Tables} {cs : List Change} {n : ℕ}
      → D.view s ≡ at t u cs n
      → D.view (D.assign c s) ≡ at t u (cs ++ c ∷ []) n
  at-assign c s e = rw (L.assign_view c s, e)

  -- How a flush ends, by the view before it.
  abbrev pub Flushed : D.Session → Tables → Tables → List Change → ℕ → Type 0
  Flushed s t u cs n =
      ((s' : D.Session) × (D.flush s ≡ (done, s'))
        × (D.view s' ≡ at t (apply_all n cs u) [] n)
        × Satisfies (apply_all n cs u))
      ⊎ ((e : DbError) × (s' : D.Session) × (D.flush s ≡ (failed e, s'))
          × ((D.view s').committed ≡ t)
          × (IsUp D → ¬ Satisfies (apply_all n cs u)))

  pub flush_cases :
      (s : D.Session) {t u : Tables} {cs : List Change} {n : ℕ}
      → D.view s ≡ at t u cs n
      → Flushed s t u cs n
  flush_cases s e = elim (L.flush_view s) [
    | inl (s', f, v, rows) ↦
        inl (s', f, rw (v, e) refl, subst (λ (x : View). Satisfies (settled x)) e rows)
    | inr (x, s', f, v) ↦ inr (
      x,
      s',
      f,
      rw (v, e) refl,
      λ up rows. done≢failed (sym (up.flush_done s (rw e rows)) ∙ ap (λ r. r.0) f),
    )
  ]
