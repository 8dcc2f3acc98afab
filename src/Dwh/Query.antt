-- ===== src/Dwh/Query.antt =====
-- The table of relays of the warehouse and what the query of getMonthlyUsageQuery in dwh/driver.go
-- asks of it.
pub mod Totals
use path_external_auth_serve.Base.{
  GoString, ℕ, ℤ, pos, ◌+ℤ◌, leb, leb_ℤ, Bool, false, true, ◌&&◌, Option, none, some, List, [], ◌∷◌,
  map, matching,
}
use path_external_auth_serve.Sql.{group_by, is_column, is_same_text}
use path_external_auth_serve.Dwh.{MonthlyUsageRow}

-- The columns that the query reads, each of which may be NULL; the day is that of the time stamp,
-- DATE(ts), counted from some day on.
pub record RelaysRow : Type 0 where
  pub day : Option ℕ
  pub account_id : Option GoString
  pub txs_cnt : Option ℤ
  pub errs_cnt : Option ℤ

-- DATE_TRUNC(CURRENT_DATE(), MONTH) and CURRENT_DATE()
pub record Month : Type 0 where
  pub first_day : ℕ
  pub today : ℕ

-- COALESCE(column, 0)
abbrev or_zero : Option ℤ → ℤ
or_zero none = pos 0
or_zero (some count) = count

abbrev pub relays_of : RelaysRow → ℤ
relays_of row = or_zero row.txs_cnt +ℤ or_zero row.errs_cnt

unfoldable pub sum_relays : List RelaysRow → ℤ
unfolding ◌+ℤ◌
sum_relays [] = pos 0
sum_relays (row ∷ rows) = relays_of row +ℤ sum_relays rows

abbrev pub is_not_null : Option GoString → Bool
is_not_null none = false
is_not_null (some id) = true

-- a comparison with NULL is not true
abbrev is_in_month : Month → Option ℕ → Bool
is_in_month month none = false
is_in_month month (some day) = leb month.first_day day && leb day month.today

-- the WHERE clause
abbrev pub is_counted : Month → RelaysRow → Bool
is_counted month row = is_in_month month row.day && is_not_null row.account_id

abbrev pub is_same_account : RelaysRow → RelaysRow → Bool
is_same_account r s = is_same_text r.account_id s.account_id

abbrev pub id_or_empty : Option GoString → GoString
id_or_empty none = []
id_or_empty (some id) = id

-- the columns of the SELECT for the group of a row
unfoldable pub total_of : List RelaysRow → RelaysRow → MonthlyUsageRow
unfolding sum_relays matching
total_of counted row = record {
  account_id = id_or_empty row.account_id;
  total_relays =
      sum_relays (matching (λ r. is_column r.account_id (id_or_empty row.account_id)) counted);
}

-- The rows in one of the orders in which BigQuery may give them: its ORDER BY is left to the reader
-- of the rows, who makes a map of them.
unfoldable pub monthly_usage_query : Month → ℤ → List RelaysRow → List MonthlyUsageRow
unfolding matching group_by total_of
monthly_usage_query month min_relay_threshold relays =
    let counted = matching (is_counted month) relays in
    let totals = map (total_of counted) (group_by is_same_account counted) in
    matching (λ row. leb_ℤ min_relay_threshold row.total_relays) totals
