-- ===== src/Usage/Report.antt =====
-- The totals of the usage report.
use infer_platform.Base.{
  ◌+◌, ◌≡◌, refl, sym, ap, ◌∙◌, List, [], ◌∷◌, map, Option, Text, pos, ◌+ℤ◌, zero_+ℤ, +ℤ_exchange,
  sort_by,
}
use infer_platform.Usage.{
  UsageLog, Sums, add_sums, sums_of, total, group_by, same_key, TotalUsage, summary_of, sum_int,
  totals_of, most_requests, report,
}
use infer_platform.Usage.Groups.{group_total, group_total-sort_by, total-group_by}

-- The totals that some sums give.
abbrev pub as_totals : Sums → TotalUsage
as_totals s = record {
  request_count = s.requests;
  total_tokens_in = s.tokens_in;
  total_tokens_out = s.tokens_out;
  total_tokens = s.tokens_in +ℤ s.tokens_out;
}

TotalUsage_eq :
    (a b : TotalUsage)
    → a.request_count ≡ b.request_count
    → a.total_tokens_in ≡ b.total_tokens_in
    → a.total_tokens_out ≡ b.total_tokens_out
    → a.total_tokens ≡ b.total_tokens
    → a ≡ b
TotalUsage_eq a b e f g h = λ i. record {
  request_count = e i;
  total_tokens_in = f i;
  total_tokens_out = g i;
  total_tokens = h i;
}

totals_of-summary_of :
    (groups : List (Option Text × Sums))
    → totals_of (map summary_of groups) ≡ as_totals (group_total groups)
unfolding totals_of sum_int total add_sums
totals_of-summary_of [] = TotalUsage_eq _ _ refl refl refl (sym (zero_+ℤ (pos 0)))
totals_of-summary_of ((key, s) ∷ groups) =
    let ih = totals_of-summary_of groups in
    TotalUsage_eq (totals_of (map summary_of ((key, s) ∷ groups)))
      (as_totals (group_total ((key, s) ∷ groups)))
      (ap (λ (t : TotalUsage). s.requests + t.request_count) ih)
      (ap (λ (t : TotalUsage). s.tokens_in +ℤ t.total_tokens_in) ih)
      (ap (λ (t : TotalUsage). s.tokens_out +ℤ t.total_tokens_out) ih)
      (ap (λ (t : TotalUsage). (s.tokens_in +ℤ s.tokens_out) +ℤ t.total_tokens) ih
        ∙ +ℤ_exchange s.tokens_in s.tokens_out (group_total groups).tokens_in
            (group_total groups).tokens_out)

-- The totals of the report, which are summed over the groups, are the number of the rows of the
-- log and the sums of their tokens, whoever's they are.
pub report-totals :
    (log : List UsageLog) → (report log).totals ≡ as_totals (total (map sums_of log))
unfolding report
report-totals log =
    totals_of-summary_of (sort_by most_requests (group_by same_key (λ row. row.key_id) log))
    ∙ ap as_totals (
        group_total-sort_by most_requests (group_by same_key (λ row. row.key_id) log)
        ∙ total-group_by same_key (λ row. row.key_id) log)
