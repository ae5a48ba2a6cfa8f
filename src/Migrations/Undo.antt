-- ===== src/Migrations/Undo.antt =====
-- `downgrade` against `upgrade`.
use drive_now.Base.{
  ◌≡◌, refl, sym, ap, ◌∙◌, inl, inr, Option, none, some, List, [], ◌∷◌, ◌++◌, arith, Option-cases,
}
use drive_now.Migrations.{
  Operation, create_table, create_index, drop_table, drop_index, Op, run, upgrade, downgrade,
}

-- The DROP of what an operation has created.
abbrev pub undo : Operation → Option Operation
undo (create_table d) = some (drop_table d.name)
undo (create_index i) = some (drop_index i.name i.table)
undo (drop_table name) = none
undo (drop_index name table) = none

-- A DROP takes back the CREATE that stands directly before it.
abbrev pub IsUndone : Op → Type 0
IsUndone O =
    (o o' : Operation) (s s' : O.Schema)
    → undo o ≡ some o'
    → O.execute o s ≡ some s'
    → O.execute o' s' ≡ some s

-- `undos` takes back `os`, the last first.
pub data Undoes : (os undos : List Operation) → Type 0 where
  nothing : Undoes [] []
  last :
      {o o' : Operation} {os undos : List Operation}
      → undo o ≡ some o'
      → Undoes os undos
      → Undoes (o ∷ os) (undos ++ o' ∷ [])

module _ (O : Op) where
  run-first :
      (o : Operation) (s s' : O.Schema) (os : List Operation)
      → O.execute o s ≡ some s'
      → run O (o ∷ os) s ≡ run O os s'
  run-first o s s' os e = ap (λ x. elim x [ none ↦ none | some s'' ↦ run O os s'' ]) e

  run-raised :
      (o : Operation) (os : List Operation) (s s' : O.Schema)
      → O.execute o s ≡ none
      → run O (o ∷ os) s ≡ some s'
      → ⊥
  run-raised o os s s' x e = ground arith

  run-append :
      (os os' : List Operation) (s s' : O.Schema)
      → run O os s ≡ some s'
      → run O (os ++ os') s ≡ run O os' s'
  run-append [] os' s s' e = ap (λ s. run O os' s) (ground arith)
  run-append (o ∷ os) os' s s' e = elim (Option-cases (O.execute o s)) [
    | inl x ↦ absurd (run-raised o os s s' x e)
    | inr (s₁, x) ↦
        run-first o s s₁ (os ++ os') x ∙ run-append os os' s₁ s' (sym (run-first o s s₁ os x) ∙ e)
  ]

  run-Undoes :
      {os undos : List Operation}
      → IsUndone O
      → Undoes os undos
      → (s s' : O.Schema) → run O os s ≡ some s'
      → run O undos s' ≡ some s
  run-Undoes L nothing s s' e = sym e
  run-Undoes L (last {o} {o'} {os} {undos} u rest) s s' e = elim (Option-cases (O.execute o s)) [
    | inl x ↦ absurd (run-raised o os s s' x e)
    | inr (s₁, x) ↦
        run-append undos (o' ∷ []) s' s₁ (run-Undoes L rest s₁ s' (sym (run-first o s s₁ os x) ∙ e))
        ∙ run-first o' s₁ s [] (L o o' s s₁ u x)
  ]

downgrade-Undoes : Undoes upgrade downgrade
unfolding upgrade downgrade
downgrade-Undoes = last refl (last refl (last refl (last refl (last refl (last refl nothing)))))

-- On a database where a DROP takes back the CREATE directly before it, `downgrade` after a
-- successful `upgrade` succeeds and restores the schema that was there before.
pub upgrade-downgrade :
    (O : Op)
    → IsUndone O
    → (s s' : O.Schema) → run O upgrade s ≡ some s'
    → run O downgrade s' ≡ some s
upgrade-downgrade O L s s' e = run-Undoes O L downgrade-Undoes s s' e
