-- ===== src/Usage/Examples.antt =====
-- A report on three rows of two keys.
use infer_platform.Base.{
  ℕ, ◌≡◌, refl, List, [], ◌∷◌, map, Option, none, some, Text, codes, text_eq, ℤ, pos, ◌+ℤ◌, sort_by,
}
use infer_platform.Usage.{
  UsageLog, add_sums, total, add_to_group, group_by, sum_int, totals_of, report, KeyUsageSummary,
}

usage : Unit {0}
unfolding text_eq ◌+ℤ◌ sort_by add_sums total add_to_group group_by sum_int totals_of report
usage = tt

abbrev row : Option Text → ℕ → ℕ → UsageLog
row key_id tokens_in tokens_out = record {
  key_id = key_id;
  model = codes "m";
  tokens_in = pos tokens_in;
  tokens_out = pos tokens_out;
  timestamp = 0;
}

abbrev log : List UsageLog
log = row none 1 2 ∷ row (some (codes "a")) 3 4 ∷ row (some (codes "a")) 5 6 ∷ []

busiest_first :
    map {B = Text × ℤ} (λ (k : KeyUsageSummary). (k.key_id, k.total_tokens)) (report log).by_key
    ≡ (codes "a", pos 18) ∷ ([], pos 3) ∷ []
unfolding usage
busiest_first = refl
