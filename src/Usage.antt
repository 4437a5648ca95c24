-- ===== src/Usage.antt =====
-- The table usage_logs and the report on it, crates/api-gateway/src/routes/usage.rs. A query with
-- COUNT, SUM and GROUP BY is `group_by`, which puts each row to the sums of its group; the order of
-- rows with equal counts is the database's, here that of the groups.
pub mod Groups
pub mod Report
mod Examples
use infer_platform.Base.{
  ℕ, ◌+◌, leb, Bool, true, false, ◌&&◌, List, [], ◌∷◌, map, Option, none, some, Text, text_eq,
  Result, ok, err, ℤ, pos, ◌+ℤ◌, sum_by, sort_by, if◌then◌else◌,
}

pub record UsageLog : Type 0 where
  pub key_id : Option Text
  pub model : Text
  pub tokens_in : ℤ
  pub tokens_out : ℤ
  pub timestamp : ℕ

-- `key_id = $1`, which NULL is not.
abbrev pub is_of : Text → Option Text → Bool
is_of key_id none = false
is_of key_id (some k) = text_eq k key_id

-- COUNT(*), SUM(tokens_in) and SUM(tokens_out) of some rows.
pub record Sums : Type 0 where
  pub requests : ℕ
  pub tokens_in : ℤ
  pub tokens_out : ℤ

abbrev pub no_rows : Sums
no_rows = record { requests = 0; tokens_in = pos 0; tokens_out = pos 0 }

unfoldable pub add_sums : Sums → Sums → Sums
add_sums a b = record {
  requests = a.requests + b.requests;
  tokens_in = a.tokens_in +ℤ b.tokens_in;
  tokens_out = a.tokens_out +ℤ b.tokens_out;
}

abbrev pub sums_of : UsageLog → Sums
sums_of row = record { requests = 1; tokens_in = row.tokens_in; tokens_out = row.tokens_out }

unfoldable pub total : List Sums → Sums
total [] = no_rows
total (s ∷ more) = add_sums s (total more)

module _ {K : Type 0} (same : K → K → Bool) where
  unfoldable pub add_to_group : K → Sums → List (K × Sums) → List (K × Sums)
  add_to_group k s [] = (k, s) ∷ []
  add_to_group k s ((k2, s2) ∷ groups) =
      let later = add_to_group k s groups in
      if same k2 k then (k2, add_sums s s2) ∷ groups else (k2, s2) ∷ later

  unfoldable pub group_by : (UsageLog → K) → List UsageLog → List (K × Sums)
  unfolding add_to_group
  group_by key [] = []
  group_by key (row ∷ rows) = add_to_group (key row) (sums_of row) (group_by key rows)

-- Two NULLs are one group.
abbrev pub same_key : Option Text → Option Text → Bool
same_key none none = true
same_key none (some k) = false
same_key (some k) none = false
same_key (some k) (some k2) = text_eq k k2

pub record KeyUsageSummary : Type 0 where
  pub key_id : Text
  pub request_count : ℕ
  pub total_tokens_in : ℤ
  pub total_tokens_out : ℤ
  pub total_tokens : ℤ

pub record TotalUsage : Type 0 where
  pub request_count : ℕ
  pub total_tokens_in : ℤ
  pub total_tokens_out : ℤ
  pub total_tokens : ℤ

pub record UsageResponse : Type 0 where
  pub by_key : List KeyUsageSummary
  pub totals : TotalUsage

-- 503 and 500.
pub data ReportError : Type 0 where
  no_database query_failed : ReportError

abbrev pub or_empty : Option Text → Text
or_empty none = []
or_empty (some t) = t

abbrev pub summary_of : Option Text × Sums → KeyUsageSummary
summary_of (key, s) = record {
  key_id = or_empty key;
  request_count = s.requests;
  total_tokens_in = s.tokens_in;
  total_tokens_out = s.tokens_out;
  total_tokens = s.tokens_in +ℤ s.tokens_out;
}

-- `iter().map(f).sum()` of an i64.
unfoldable pub sum_int {ℓ} : {A : Type ℓ} → (A → ℤ) → List A → ℤ
sum_int f [] = pos 0
sum_int f (x ∷ xs) = f x +ℤ sum_int f xs

abbrev pub most_requests : Option Text × Sums → Option Text × Sums → Bool
most_requests a b = leb b.1.requests a.1.requests

unfoldable pub totals_of : List KeyUsageSummary → TotalUsage
unfolding sum_int
totals_of by_key = record {
  request_count = sum_by (λ (k : KeyUsageSummary). k.request_count) by_key;
  total_tokens_in = sum_int (λ (k : KeyUsageSummary). k.total_tokens_in) by_key;
  total_tokens_out = sum_int (λ (k : KeyUsageSummary). k.total_tokens_out) by_key;
  total_tokens = sum_int (λ (k : KeyUsageSummary). k.total_tokens) by_key;
}

unfoldable pub report : List UsageLog → UsageResponse
unfolding group_by totals_of
report log =
    let rows = sort_by most_requests (group_by same_key (λ row. row.key_id) log) in
    let by_key = map summary_of rows in record { by_key = by_key; totals = totals_of by_key }

unfoldable pub summary : (fails : Bool) → Option (List UsageLog) → Result ReportError UsageResponse
unfolding report
summary fails none = err no_database
summary fails (some log) = if fails then err query_failed else ok (report log)
