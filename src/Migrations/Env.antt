-- ===== src/Migrations/Env.antt =====
-- The database URL of alembic/env.py. A text is the list of its characters' codes. The configuration
-- that alembic reads back, Python's ConfigParser, is a parameter.
use drive_now.Base.{
  ℕ, ◌≡◌, inl, inr, false, Option, none, some, List, [], ◌∷◌, arith, ◌==◌, if◌then◌else◌,
  Bool-cases,
}

abbrev pub percent : ℕ
percent = 37

-- `_url.replace("%", "%%")`
abbrev pub escape : List ℕ → List ℕ
escape [] = []
escape (c ∷ cs) =
    let rest = escape cs in if c == percent then percent ∷ percent ∷ rest else c ∷ rest

-- `_url`: an explicit value that is not empty, or the settings' URL.
abbrev pub resolve : (explicit : Option (List ℕ)) → (database_url : List ℕ) → List ℕ
resolve none database_url = database_url
resolve (some []) database_url = database_url
resolve (some (c ∷ cs)) database_url = c ∷ cs

-- What `set_main_option` is given.
unfoldable pub main_option : Option (List ℕ) → List ℕ → List ℕ
main_option explicit database_url = escape (resolve explicit database_url)

-- The values of a ConfigParser, as they are read: a doubled percent sign stands for one, and any
-- other character for itself.
pub record IsInterpolation (read : List ℕ → Option (List ℕ)) : Type 0 where
  pub nothing : read [] ≡ some []
  pub doubled :
      (cs ds : List ℕ) → read cs ≡ some ds → read (percent ∷ percent ∷ cs) ≡ some (percent ∷ ds)
  pub other :
      (c : ℕ) (cs ds : List ℕ)
      → (c == percent) ≡ false
      → read cs ≡ some ds
      → read (c ∷ cs) ≡ some (c ∷ ds)

read-escape :
    (read : List ℕ → Option (List ℕ))
    → IsInterpolation read
    → (cs : List ℕ) → read (escape cs) ≡ some cs
read-escape read L [] = L.nothing
read-escape read L (c ∷ cs) = elim (Bool-cases (c == percent)) [
  | inl x ↦
      let same : c ≡ percent = ground arith in
      rw (x, same) (L.doubled (escape cs) cs (read-escape read L cs))
  | inr x ↦ rw x (L.other c (escape cs) cs x (read-escape read L cs))
]

-- If the configuration reads a doubled percent sign as one and any other character as itself, the
-- URL that env.py writes to it is read back as the explicit URL, or as that of the settings where
-- none is given.
pub read-main_option :
    (read : List ℕ → Option (List ℕ))
    → IsInterpolation read
    → (explicit : Option (List ℕ)) (database_url : List ℕ)
    → read (main_option explicit database_url) ≡ some (resolve explicit database_url)
unfolding main_option
read-main_option read L explicit database_url = read-escape read L (resolve explicit database_url)
