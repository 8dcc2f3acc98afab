-- ===== src/Dwh/Query/Totals.antt =====
-- The totals that the query of dwh/driver.go gives, and what GetMonthToMomentUsage makes of them.
use path_external_auth_serve.Base.{
  GoString, ℤ, pos, ◌<ℤ◌, ◌≤ℤ◌, leb_ℤ, ◌+ℤ◌, ◌&&◌, true, none, some, List, [], ◌∷◌, map, All,
  Member, HaveSameMembers, matching, find, find_sound, matching-none, Member-matching, Member-map,
  All-of_members, ◌≡◌, refl, sym, ap, ◌∙◌, subst, arith, if◌then◌else◌, Bool-cases, Option-cases,
  inl, inr, GoMap, lookup, HasDistinctKeys, ok,
}
use path_external_auth_serve.Sql.{group_by, is_column}
use path_external_auth_serve.Sql.Laws.{group_by_complete, is_column_iff, is_same_text_sound}
use path_external_auth_serve.Dwh.{
  MonthlyUsageRow, Driver, get_monthly_usage_query, get_month_to_moment_usage,
}
use path_external_auth_serve.Dwh.Usage.{
  last_total, last_total_sound, last_total_exists, get_month_to_moment_usage_complete,
}
use path_external_auth_serve.Dwh.Query.{
  RelaysRow, Month, relays_of, sum_relays, is_counted, is_same_account, id_or_empty, total_of,
  monthly_usage_query,
}

module _ (month : Month) where
  -- The relays of an account from the first day of the month to today.
  unfoldable pub relays_in_month : GoString → List RelaysRow → ℤ
  unfolding ◌+ℤ◌
  relays_in_month a [] = pos 0
  relays_in_month a (row ∷ rows) =
      if is_counted month row && is_column row.account_id a
      then relays_of row +ℤ relays_in_month a rows
      else relays_in_month a rows

  sum_relays-eq :
      (a : GoString) (relays : List RelaysRow)
      → sum_relays (matching (λ r. is_column r.account_id a) (matching (is_counted month) relays))
        ≡ relays_in_month a relays
  unfolding relays_in_month sum_relays matching
  sum_relays-eq a [] = refl
  sum_relays-eq a (row ∷ rows) = elim (Bool-cases (is_counted month row)) [
    | inr left_out ↦ rw left_out (sum_relays-eq a rows)
    | inl counted ↦ elim (Bool-cases (is_column row.account_id a)) [
      | inl mine ↦ rw (counted, mine) (ap (λ s. relays_of row +ℤ s) (sum_relays-eq a rows))
      | inr other ↦ rw (counted, other) (sum_relays-eq a rows)
    ]
  ]

  module _ (threshold : ℤ) (relays : List RelaysRow) where
    abbrev IsTrue : MonthlyUsageRow → Type 0
    IsTrue row =
        (row.total_relays ≡ relays_in_month row.account_id relays) × (threshold ≤ℤ row.total_relays)

    total_of-total :
        (r : RelaysRow)
        → (total_of (matching (is_counted month) relays) r).total_relays
          ≡ relays_in_month (id_or_empty r.account_id) relays
    unfolding total_of
    total_of-total r = sum_relays-eq (id_or_empty r.account_id) relays

    monthly_usage_query_sound :
        (row : MonthlyUsageRow)
        → Member row (monthly_usage_query month threshold relays)
        → IsTrue row
    unfolding monthly_usage_query total_of
    monthly_usage_query_sound row m =
        let (above, in_totals) =
          (Member-matching (λ k. leb_ℤ threshold k.total_relays) row _).0 m in
        let counted = matching (is_counted month) relays in
        let (r, in_groups, e) =
          (Member-map (total_of counted) row (group_by is_same_account counted)).0 in_totals in
        (
          ap (λ k. k.total_relays) e
              ∙ total_of-total r
              ∙ ap (λ k. relays_in_month k.account_id relays) (sym e),
          ground (arith, above),
        )

    monthly_usage_query_complete :
        (a : GoString)
        → pos 0 <ℤ threshold
        → threshold ≤ℤ relays_in_month a relays
        → (row : MonthlyUsageRow) × Member row (monthly_usage_query month threshold relays)
          × (row.account_id ≡ a)
    unfolding monthly_usage_query total_of
    monthly_usage_query_complete a positive enough =
        let counted = matching (is_counted month) relays in
        elim (Option-cases (find (λ r. is_column r.account_id a) counted)) [
          | inl nothing ↦
              let no_relays : relays_in_month a relays ≡ pos 0 =
                sym (sum_relays-eq a relays)
                ∙ ap sum_relays (matching-none (λ r. is_column r.account_id a) counted nothing) in
              absurd (ground (arith, no_relays, positive, enough))
          | inr (r, found) ↦
              let (mine, is_counted_row) =
                find_sound (λ r. is_column r.account_id a) counted found in
              let (g, in_groups, same) =
                group_by_complete (λ r. r.account_id) is_same_account
                  (λ x y. is_same_text_sound x.account_id y.account_id) r counted is_counted_row in
              let is_a : id_or_empty g.account_id ≡ a =
                ap id_or_empty (same ∙ (is_column_iff r.account_id a).0 mine) in
              let total : (total_of counted g).total_relays ≡ relays_in_month a relays =
                total_of-total g ∙ ap (λ k. relays_in_month k relays) is_a in
              (
                total_of counted g,
                (Member-matching _ _ _).1
                    (ground (arith, total, enough), (Member-map _ _ _).1 (g, in_groups, refl)),
                is_a,
              )
        ]

    -- The last row of an account, where the rows are those of the query in any order.
    last_total-eq :
        (a : GoString) (rows : List MonthlyUsageRow)
        → HaveSameMembers rows (monthly_usage_query month threshold relays)
        → pos 0 <ℤ threshold
        → last_total a rows none ≡ (
            if leb_ℤ threshold (relays_in_month a relays)
            then some (relays_in_month a relays)
            else none)
    last_total-eq a rows same positive =
        let true_rows : All IsTrue rows =
          All-of_members IsTrue rows (λ row m. monthly_usage_query_sound row ((same row).0 m)) in
        let sound =
          last_total_sound (λ b. relays_in_month b relays) threshold a rows none true_rows
            (λ t e. cc e) in
        elim (Option-cases (last_total a rows none)) [
          | inr (t, last) ↦
              let (is_used, enough) = sound t last in
              let above : leb_ℤ threshold (relays_in_month a relays) ≡ true =
                subst (λ u. leb_ℤ threshold u ≡ true) is_used (ground (arith, enough)) in
              rw above (last ∙ ap some is_used)
          | inl nothing ↦ elim (Bool-cases (leb_ℤ threshold (relays_in_month a relays))) [
            | inr few ↦ rw few nothing
            | inl above ↦
                let (row, in_query, is_a) =
                  monthly_usage_query_complete a positive (ground (arith, above)) in
                let (u, last) = last_total_exists a rows none row ((same row).1 in_query) is_a in
                cc (nothing, last)
          ]
        ]

    -- Where BigQuery runs the query over the table of relays and gives its rows in any order, the
    -- usage map is returned; it holds each account that has relayed the threshold or more since the
    -- first day of the month, with that number, and no other account.
    pub get_month_to_moment_usage-relays_in_month :
        (d : Driver) (rows : List MonthlyUsageRow)
        → d.client_bq (get_monthly_usage_query d.project_id threshold) ≡ ok (map ok rows)
        → HaveSameMembers rows (monthly_usage_query month threshold relays)
        → pos 0 <ℤ threshold
        → (usages : GoMap ℤ) × (get_month_to_moment_usage d threshold ≡ ok usages)
          × HasDistinctKeys usages
          × ((a : GoString)
              → lookup a usages ≡ (
                  if leb_ℤ threshold (relays_in_month a relays)
                  then some (relays_in_month a relays)
                  else none))
    get_month_to_moment_usage-relays_in_month d rows ran same positive =
        let (usages, answered, distinct, totals) =
          get_month_to_moment_usage_complete d threshold rows ran in
        (usages, answered, distinct, λ a. totals a ∙ last_total-eq a rows same positive)
