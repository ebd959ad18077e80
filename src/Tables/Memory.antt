-- ===== src/Tables/Memory.antt =====
-- A table as a list of rows.
use snapemu_workflow.Base.{
  ℕ, suc, ◌≤◌, ◌≢◌, refl, not, List, [], ◌∷◌, map, All, ltb, if◌then◌else◌, arith,
}
use snapemu_workflow.Groups.{filter}
use snapemu_workflow.Tables.{Table, IsTable, replaced}

abbrev greater : ℕ → ℕ → ℕ
greater a b = if ltb a b then b else a

-- Above the keys of all rows.
abbrev fresh_key : {Row : Type 0} → (Row → ℕ) → List Row → ℕ
fresh_key key [] = 1
fresh_key key (r ∷ rows) = greater (suc (key r)) (fresh_key key rows)

All-below :
    {Row : Type 0} (key : Row → ℕ) (rows : List Row) (n : ℕ)
    → fresh_key key rows ≤ n
    → All (λ r. key r ≢ n) rows
All-below key [] n h = tt
All-below key (r ∷ rows) n h =
    let (own, rest) = parts (suc (key r)) (fresh_key key rows) h in
    (λ e. ground arith, All-below key rows n rest)
  where
    parts : (a b : ℕ) → greater a b ≤ n → (a ≤ n) × (b ≤ n)
    parts a b h = ground arith

abbrev pub memory : {Row : Type 0} → (Row → ℕ) → Table Row
memory {Row} key = record {
  State = List Row;
  key = key;
  rows = λ s. s;
  insert = λ make s. (make (fresh_key key s), make (fresh_key key s) ∷ s);
  update = λ new s. map (replaced key new) s;
  delete_many = λ p s. filter (λ r. not (p r)) s;
}

pub memory-IsTable : {Row : Type 0} (key : Row → ℕ) → IsTable (memory key)
memory-IsTable key = record {
  rows-insert =
      λ make s. (fresh_key key s, All-below key s (fresh_key key s) (omega arith), refl, refl);
  rows-update = λ new s. refl;
  rows-delete_many = λ p s. refl;
}
