-- ===== src/Dwh/Usage.antt =====
-- What GetMonthToMomentUsage of dwh/driver.go returns.
use path_external_auth_serve.Base.{
  GoString, ℤ, GoMap, lookup, insert, lookup-insert, insert-HasDistinctKeys, HasDistinctKeys,
  Result, ok, err, wrap, Option, none, some, List, [], ◌∷◌, map, ◌≡◌, refl, sym, ap, subst, ◌∙◌,
  if◌then◌else◌, ◌==◌, string_Eq, string_eq_iff, All, ◌≤ℤ◌, arith, true, Bool-cases, inl, inr,
  Member, here, there,
}
use path_external_auth_serve.Base.Results.{>>=-eq-ok, wrap-eq-ok}
use path_external_auth_serve.Dwh.{
  MonthlyUsageRow, Driver, get_monthly_usage_query, read_rows, get_month_to_moment_usage,
}

-- The total of the last row of the account.
abbrev pub last_total : GoString → List MonthlyUsageRow → Option ℤ → Option ℤ
last_total a [] found = found
last_total a (row ∷ rows) found =
    last_total a rows (if row.account_id == a then some row.total_relays else found)

read_rows_ok :
    (answer : List (Result MonthlyUsageRow)) (results usages : GoMap ℤ)
    → read_rows answer results ≡ ok usages
    → HasDistinctKeys results
    → (rows : List MonthlyUsageRow) × (answer ≡ map ok rows)
      × HasDistinctKeys usages
      × ((a : GoString) → lookup a usages ≡ last_total a rows (lookup a results))
unfolding read_rows
read_rows_ok [] results usages h d =
    let same : results ≡ usages = cc in
    ([], refl, subst HasDistinctKeys same d, λ a. ap (lookup a) (sym same))
read_rows_ok (err m ∷ answer) results usages h d = cc
read_rows_ok (ok row ∷ answer) results usages h d =
    let (rows, e, d', f) =
      read_rows_ok answer (insert row.account_id row.total_relays results) usages h
        (insert-HasDistinctKeys row.account_id row.total_relays results d) in
    (
      row ∷ rows,
      ap (◌∷◌ (ok row)) e,
      d',
      λ a. f a ∙ ap (last_total a rows) (lookup-insert row.account_id a row.total_relays results),
    )

-- A usage map is returned only if the query ran and every row was read; it is a Go map, and it
-- holds for each account the total of the last row for it, and nothing for an account with no row.
pub get_month_to_moment_usage_sound :
    (d : Driver) (threshold : ℤ) (usages : GoMap ℤ)
    → get_month_to_moment_usage d threshold ≡ ok usages
    → (rows : List MonthlyUsageRow) × (d.client_bq (get_monthly_usage_query d.project_id threshold)
        ≡ ok (map ok rows))
      × HasDistinctKeys usages
      × ((a : GoString) → lookup a usages ≡ last_total a rows none)
unfolding get_month_to_moment_usage lookup
get_month_to_moment_usage_sound d threshold usages h =
    let (answer, ran, read) = >>=-eq-ok (wrap _ (d.client_bq _)) (λ rows. read_rows rows []) h in
    let (rows, e, distinct, f) = read_rows_ok answer [] usages read tt in
    (rows, wrap-eq-ok _ (d.client_bq _) ran ∙ ap ok e, distinct, f)

ok-injective :
    (rows rows' : List MonthlyUsageRow)
    → ◌≡◌ {A = List (Result MonthlyUsageRow)} (map ok rows) (map ok rows')
    → rows ≡ rows'
ok-injective [] [] h = refl
ok-injective [] (row ∷ rows') h = cc h
ok-injective (row ∷ rows) [] h = cc h
ok-injective (row ∷ rows) (row' ∷ rows') h =
    let same : row ≡ row' = cc h in
    let others : rows ≡ rows' = ok-injective rows rows' (cc h) in cc (same, others)

read_rows-map :
    (rows : List MonthlyUsageRow) (results : GoMap ℤ)
    → (usages : GoMap ℤ) × (read_rows (map ok rows) results ≡ ok usages)
unfolding read_rows
read_rows-map [] results = (results, refl)
read_rows-map (row ∷ rows) results =
    read_rows-map rows (insert row.account_id row.total_relays results)

-- Where the query runs and each of its rows can be read, there is a usage map, and it holds the last
-- total of each account.
pub get_month_to_moment_usage_complete :
    (d : Driver) (threshold : ℤ) (rows : List MonthlyUsageRow)
    → d.client_bq (get_monthly_usage_query d.project_id threshold) ≡ ok (map ok rows)
    → (usages : GoMap ℤ) × (get_month_to_moment_usage d threshold ≡ ok usages)
      × HasDistinctKeys usages
      × ((a : GoString) → lookup a usages ≡ last_total a rows none)
unfolding get_month_to_moment_usage
get_month_to_moment_usage_complete d threshold rows ran =
    let (usages, read) = read_rows-map rows [] in
    let answered : get_month_to_moment_usage d threshold ≡ ok usages = rw ran read in
    let (rows', ran', distinct, totals) =
      get_month_to_moment_usage_sound d threshold usages answered in
    let same : rows' ≡ rows = ok-injective rows' rows (cc (ran, ran')) in
    (usages, answered, distinct, λ a. totals a ∙ ap (λ r. last_total a r none) same)

-- What the last row of an account holds, where every row holds the truth and no less than the
-- threshold.
pub last_total_sound :
    (used : GoString → ℤ) (threshold : ℤ) (a : GoString) (rows : List MonthlyUsageRow)
    (found : Option ℤ)
    → All (λ row. (row.total_relays ≡ used row.account_id) × (threshold ≤ℤ row.total_relays)) rows
    → ((t : ℤ) → found ≡ some t → (t ≡ used a) × (threshold ≤ℤ t))
    → (t : ℤ) → last_total a rows found ≡ some t
    → (t ≡ used a) × (threshold ≤ℤ t)
last_total_sound used threshold a [] found rs keep t h = keep t h
last_total_sound used threshold a (row ∷ rows) found ((true_usage, big), rs) keep t h =
    last_total_sound used threshold a rows _ rs
      (λ u e. elim (Bool-cases (row.account_id == a)) [
        | inl same ↦
            let mine : row.total_relays ≡ u = ground (arith, same, e) in
            let here = (string_eq_iff row.account_id a).0 same in
            (sym mine ∙ true_usage ∙ ap used here, ground (arith, mine, big))
        | inr other ↦ keep u (ground (arith, other, e))
      ])
      t h

last_total_kept :
    (a : GoString) (rows : List MonthlyUsageRow) (found : Option ℤ) (t : ℤ)
    → found ≡ some t
    → (u : ℤ) × (last_total a rows found ≡ some u)
last_total_kept a [] found t h = (t, h)
last_total_kept a (row ∷ rows) found t h = elim (Bool-cases (row.account_id == a)) [
  | inl same ↦ rw same (last_total_kept a rows (some row.total_relays) row.total_relays refl)
  | inr other ↦ rw other (last_total_kept a rows found t h)
]

-- An account with a row has a last one.
pub last_total_exists :
    (a : GoString) (rows : List MonthlyUsageRow) (found : Option ℤ) (row : MonthlyUsageRow)
    → Member row rows
    → row.account_id ≡ a
    → (u : ℤ) × (last_total a rows found ≡ some u)
last_total_exists a [] found row m is_a = elim m [ ]
last_total_exists a (row' ∷ rows) found row (here e) is_a =
    let same : (row'.account_id == a) ≡ true =
      (string_eq_iff row'.account_id a).1 (ap (λ r. r.account_id) (sym e) ∙ is_a) in
    rw same (last_total_kept a rows (some row'.total_relays) row'.total_relays refl)
last_total_exists a (row' ∷ rows) found row (there m) is_a = last_total_exists a rows _ row m is_a
