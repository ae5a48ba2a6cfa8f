-- ===== src/Interleaving/Invariant.antt =====
-- The invariant of overlapping transactions: the committed tables, what each transaction knows of
-- them, its unused keys, and the holders of the locks.
use drive_now.Base.{
  ℕ, ◌≡◌, ◌≢◌, refl, sym, ap, subst, ◌∙◌, inl, inr, Bool, true, false, some, arith, ◌==◌, ◌||◌,
  Bool-cases,
}
use drive_now.Models.Tables.{Tables, apply_all}
use drive_now.Fleet.Consistent.{IsConsistent}
use drive_now.History.{IsValidCall}
use drive_now.Interleaving.Points.{
  Point, ready, candidate, locked, written_car, written_update, written_retired, written_rental,
  written_return, refused, committed, aborted, holds_car, is_running, is_written,
}
use drive_now.Interleaving.Statements.{react}
use drive_now.Interleaving.Writes.{Job, changes}
use drive_now.Interleaving.Steps.{System, move, Granted}
use drive_now.Interleaving.Facts.{Known}
use drive_now.Interleaving.Learning.{react-Known}
use drive_now.Interleaving.Commit.{commit-Frames}
use drive_now.Interleaving.Keys.{commit-IsConsistent, commit-Lasting}
use drive_now.Interleaving.Fresh.{Unused, commit-Unused}
use drive_now.Interleaving.Stable.{Known-Frames}
use drive_now.Interleaving.Locks.{react-holds}

-- Valid calls on consistent tables, whose INSERTs draw keys that are not used and not drawn twice.
pub record IsWorkload (env : ℕ → Job) (t : Tables) : Type 0 where
  pub consistent : IsConsistent t
  pub valid : (i : ℕ) → IsValidCall (env i).call
  pub unused : (i : ℕ) → Unused (env i).car_key (env i).rental_key t
  pub car_keys : (i j : ℕ) → (i == j) ≡ false → ((env i).car_key == (env j).car_key) ≡ false
  pub rental_keys :
      (i j : ℕ) → (i == j) ≡ false → ((env i).rental_key == (env j).rental_key) ≡ false

abbrev is_committed : Point → Bool
is_committed committed = true
is_committed ready = false
is_committed (candidate r) = false
is_committed (locked car) = false
is_committed written_car = false
is_committed (written_update car) = false
is_committed (written_retired car) = false
is_committed (written_rental car) = false
is_committed (written_return r car) = false
is_committed (refused e) = false
is_committed aborted = false

-- A car's lock has one holder.
abbrev pub IsAlone : (ℕ → Point) → Type 0
IsAlone f = (i j c : ℕ) → holds_car (f i) ≡ some c → holds_car (f j) ≡ some c → (i == j) ≡ true

pub record IsSafe (env : ℕ → Job) (s : System) : Type 0 where
  pub consistent : IsConsistent s.tables
  pub known : (i : ℕ) → Known (env i).call (s.point i) s.tables
  -- the keys of what has not committed
  pub unused :
      (i : ℕ)
      → is_committed (s.point i) ≡ false
      → Unused (env i).car_key (env i).rental_key s.tables
  pub alone : IsAlone s.point

pub same_index : (i j : ℕ) → (i == j) ≡ true → i ≡ j
same_index i j e = ground arith

-- The points after a move.
move-same : (f : ℕ → Point) (i j : ℕ) (p : Point) → (i == j) ≡ true → move f i p j ≡ p
move-same f i j p e = rw e refl

move-other : (f : ℕ → Point) (i j : ℕ) (p : Point) → (i == j) ≡ false → move f i p j ≡ f j
move-other f i j p e = rw e refl

-- A property of all points, by that of the point that moves.
move-all :
    (P : ℕ → Point → Type 0) (f : ℕ → Point) (i : ℕ) (p : Point)
    → P i p
    → ((j : ℕ) → (i == j) ≡ false → P j (f j))
    → (j : ℕ) → P j (move f i p j)
move-all P f i p here there j = elim (Bool-cases (i == j)) [
  | inl e ↦ subst (P j) (sym (move-same f i j p e)) (subst (λ x. P x p) (same_index i j e) here)
  | inr e ↦ subst (P j) (sym (move-other f i j p e)) (there j e)
]

same_both : (i j k : ℕ) → (i == j) ≡ true → (i == k) ≡ true → (j == k) ≡ true
same_both i j k e e' = ground arith

flip : (i j : ℕ) → (i == j) ≡ true → (j == i) ≡ true
flip i j e = ground arith

move-IsAlone :
    (f : ℕ → Point) (i : ℕ) (p : Point)
    → IsAlone f
    → ((j c : ℕ) → (i == j) ≡ false → holds_car p ≡ some c → holds_car (f j) ≢ some c)
    → IsAlone (move f i p)
move-IsAlone f i p alone clear j k c hj hk = elim (Bool-cases (i == j)) [
  | inl e ↦ elim (Bool-cases (i == k)) [
    | inl e' ↦ same_both i j k e e'
    | inr e' ↦ absurd (
        clear k c e' (ap holds_car (sym (move-same f i j p e)) ∙ hj)
          (ap holds_car (sym (move-other f i k p e')) ∙ hk))
  ]
  | inr e ↦ elim (Bool-cases (i == k)) [
    | inl e' ↦ absurd (
        clear j c e (ap holds_car (sym (move-same f i k p e')) ∙ hk)
          (ap holds_car (sym (move-other f i j p e)) ∙ hj))
    | inr e' ↦
        alone j k c (ap holds_car (sym (move-other f i j p e)) ∙ hj)
          (ap holds_car (sym (move-other f i k p e')) ∙ hk)
  ]
]

running-committed : (p : Point) → is_running p ≡ true → is_committed p ≡ false
running-committed p e = ground arith

open-committed : (p : Point) → is_running p || is_written p ≡ true → is_committed p ≡ false
open-committed p e = ground arith

module _ (env : ℕ → Job) (s : System) (inv : IsSafe env s) (i : ℕ) where
  pub acts-IsSafe :
      is_running (s.point i) ≡ true
      → Granted env s i
      → IsSafe env (record s { point = move s.point i (react (env i).call s.tables (s.point i)) })
  acts-IsSafe running granted =
      let p = react (env i).call s.tables (s.point i) in
      record {
        consistent = inv.consistent;
        known =
            move-all (λ j x. Known (env j).call x s.tables) s.point i p
              (react-Known (env i).call (s.point i) s.tables inv.consistent (inv.known i))
              (λ j other. inv.known j);
        unused =
            move-all
              (λ j x. is_committed x ≡ false → Unused (env j).car_key (env j).rental_key s.tables)
              s.point i p (λ _. inv.unused i (running-committed (s.point i) running))
              (λ j other. inv.unused j);
        alone = move-IsAlone s.point i p inv.alone (λ j c other held taken.
            elim (react-holds (env i).call (s.point i) c s.tables inv.consistent held) [
              | inl wanted ↦ granted.0 c j wanted taken
              | inr kept ↦ let same = inv.alone i j c kept taken in cc
            ]);
      }

  pub aborts-IsSafe :
      is_running (s.point i) || is_written (s.point i) ≡ true
      → IsSafe env (record s { point = move s.point i aborted })
  aborts-IsSafe still = record {
    consistent = inv.consistent;
    known =
        move-all (λ j x. Known (env j).call x s.tables) s.point i aborted tt
          (λ j other. inv.known j);
    unused =
        move-all
          (λ j x. is_committed x ≡ false → Unused (env j).car_key (env j).rental_key s.tables)
          s.point i aborted (λ _. inv.unused i (open-committed (s.point i) still))
          (λ j other. inv.unused j);
    alone = move-IsAlone s.point i aborted inv.alone (λ j c other held. absurd (cc));
  }

written-committed : (p : Point) → is_written p ≡ true → is_committed p ≡ false
written-committed p e = ground arith

-- The car of another transaction is none that a transaction holds.
other_car :
    (f : ℕ → Point) (i j c d : ℕ)
    → IsAlone f
    → (i == j) ≡ false
    → holds_car (f j) ≡ some c
    → holds_car (f i) ≡ some d
    → (d == c) ≡ false
other_car f i j c d alone other held mine = elim (Bool-cases (d == c)) [
  | inr e ↦ e
  | inl e ↦ let same = alone i j c (mine ∙ ap some (same_index d c e)) held in absurd (cc)
]

pub commits-IsSafe :
    (env : ℕ → Job) (t : Tables) (s : System) (i : ℕ)
    → IsWorkload env t
    → IsSafe env s
    → is_written (s.point i) ≡ true
    → IsSafe env (record {
      tables = apply_all (env i).now (changes (env i) (s.point i)) s.tables;
      point = move s.point i committed;
    })
commits-IsSafe env t s i w inv written =
    let q = env i in
    let p = s.point i in
    let t' = apply_all q.now (changes q p) s.tables in
    let (new_car, new_rental) = inv.unused i (written-committed p written) in
    record {
      consistent =
          commit-IsConsistent q p s.tables inv.consistent (w.valid i) written (inv.known i) new_car
            new_rental;
      known =
          move-all (λ j x. Known (env j).call x t') s.point i committed tt
            (λ j other.
              Known-Frames (env j).call (s.point j) s.tables t' (inv.known j)
                (λ c held.
                  commit-Frames q p s.tables c inv.consistent (inv.known i) new_car new_rental
                    (λ d mine. other_car s.point i j c d inv.alone other held mine))
                (commit-Lasting q p s.tables inv.consistent (inv.known i) new_rental));
      unused =
          move-all (λ j x. is_committed x ≡ false → Unused (env j).car_key (env j).rental_key t')
            s.point i committed (λ h. absurd (cc))
            (λ j other h.
              commit-Unused q p s.tables (env j).car_key (env j).rental_key (w.car_keys i j other)
                (w.rental_keys i j other) (inv.unused j h));
      alone = move-IsAlone s.point i committed inv.alone (λ j c other held. absurd (cc));
    }
