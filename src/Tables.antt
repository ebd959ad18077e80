-- ===== src/Tables.antt =====
-- A table of the database as the program uses it through the crate sea-orm: rows with a primary key,
-- which are inserted with a new key, changed and deleted by their key, and deleted by a filter. A query
-- gives the rows in some order of the table.
pub mod Memory
pub mod Rows
use snapemu_workflow.Base.{
  ℕ, ◌≡◌, ◌≢◌, Bool, true, false, not, ◌||◌, Option, none, some, List, [], ◌∷◌, map, All, ◌==◌,
  if◌then◌else◌, refl, Bool-cases, inl, inr, ap,
}
use snapemu_workflow.Groups.{filter, find}

pub record Table (Row : Type 0) : Type 1 where
  pub State : Type 0
  pub key : Row → ℕ
  pub rows : State → List Row
  pub insert : (ℕ → Row) → State → Row × State
  pub update : Row → State → State
  pub delete_many : (Row → Bool) → State → State

-- What becomes of a row when one with the same key is changed.
abbrev pub replaced : {Row : Type 0} → (Row → ℕ) → Row → Row → Row
replaced key new r = if key r == key new then new else r

pub record IsTable {Row : Type 0} (T : Table Row) : Type 0 where
  pub rows-insert :
      (make : ℕ → Row) (s : T.State)
      → (id : ℕ) × (All (λ r. T.key r ≢ id) (T.rows s))
        × ((T.insert make s).0 ≡ make id)
        × (T.rows (T.insert make s).1 ≡ make id ∷ T.rows s)
  pub rows-update :
      (new : Row) (s : T.State) → T.rows (T.update new s) ≡ map (replaced T.key new) (T.rows s)
  pub rows-delete_many :
      (p : Row → Bool) (s : T.State)
      → T.rows (T.delete_many p s) ≡ filter (λ r. not (p r)) (T.rows s)

-- `is_in`
unfoldable pub is_in : List ℕ → ℕ → Bool
is_in [] id = false
is_in (i ∷ ids) id = (i == id) || is_in ids id

-- The deletion of one row, by its primary key.
unfoldable pub delete_row : {Row : Type 0} (T : Table Row) → Row → T.State → T.State
delete_row T row s = T.delete_many (λ r. T.key r == T.key row) s
