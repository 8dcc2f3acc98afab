-- ===== src/Sql.antt =====
-- The clauses of SQL that the program's two queries are made of, as functions on lists of rows, where
-- `none` is NULL: they follow the documentation of Postgres and BigQuery. WHERE and HAVING are
-- `matching`.
pub mod Laws
use path_external_auth_serve.Base.{
  GoString, ℤ, Bool, true, false, not, Option, none, some, List, [], ◌∷◌, ◌++◌, map, matching, ◌==◌,
  string_Eq, int_Eq,
}

module _ {A B : Type 0} where
  -- a row beside each of its partners, or beside NULLs if it has none
  abbrev beside : A → List B → List (A × Option B)
  beside x [] = (x, none) ∷ []
  beside x (y ∷ ys) = (x, some y) ∷ map (λ z. (x, some z)) ys

  -- xs LEFT JOIN ys ON on
  unfoldable pub left_join : (A → B → Bool) → List A → List B → List (A × Option B)
  unfolding matching
  left_join on [] ys = []
  left_join on (x ∷ xs) ys = beside x (matching (on x) ys) ++ left_join on xs ys

-- one row of each group of rows that are the same
unfoldable pub group_by : {A : Type 0} → (A → A → Bool) → List A → List A
unfolding matching
group_by same [] = []
group_by same (x ∷ xs) = x ∷ matching (λ y. not (same x y)) (group_by same xs)

-- `column = value` where the column may be NULL
abbrev pub is_column : Option GoString → GoString → Bool
is_column none value = false
is_column (some text) value = value == text

abbrev pub is_same_text : Option GoString → Option GoString → Bool
is_same_text none none = true
is_same_text (some a) (some b) = a == b
is_same_text _ _ = false

abbrev pub is_same_int : Option ℤ → Option ℤ → Bool
is_same_int none none = true
is_same_int (some a) (some b) = a == b
is_same_int _ _ = false

abbrev pub is_same_flag : Option Bool → Option Bool → Bool
is_same_flag none none = true
is_same_flag (some true) (some b) = b
is_same_flag (some false) (some b) = not b
is_same_flag _ _ = false
