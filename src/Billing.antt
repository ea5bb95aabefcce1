-- ===== src/Billing.antt =====
-- internal/billing/spend.go: the spend of a namespace, from the BigQuery billing export. The
-- BigQuery client and its iterator are a parameter.
pub mod Laws
pub mod Reference
use costguard_operator.Base.{
  ℕ, String, code, Bool, true, false, ◌&&◌, ◌||◌, List, [], ◌∷◌, Option, none, some, ◌==◌,
  if◌then◌else◌, leb, eqb, ℤ, pos,
}
use costguard_operator.Go.Text.{trim_space, split}
use costguard_operator.Go.Time.{Time, Duration, add, negated}
use costguard_operator.Kube.{Error, errorf, wrap, Result, ok, err, NamespaceSpendQuerier}

-- The character class of bqTablePart, ^[a-zA-Z0-9_-]+$
abbrev pub is_part_char : ℕ → Bool
is_part_char c =
    leb b'a' c && leb c b'z'
    || leb b'A' c && leb c b'Z'
    || leb b'0' c && leb c b'9'
    || eqb c b'_'
    || eqb c b'-'

unfoldable pub all_part_chars : String → Bool
all_part_chars String.[] = true
all_part_chars (String.◌∷◌ c s) = is_part_char (code c) && all_part_chars s

-- bqTablePart.MatchString
unfoldable pub matches_table_part : String → Bool
unfolding all_part_chars
matches_table_part String.[] = false
matches_table_part (String.◌∷◌ c s) = all_part_chars (String.◌∷◌ c s)

pub record TableRef : Type 0 where
  pub project : String
  pub dataset : String
  pub table : String

-- `len(parts) != 3`, then the loop over the three parts.
unfoldable pub checked_parts : List String → Result Error TableRef
unfolding matches_table_part
checked_parts (project ∷ dataset ∷ table ∷ []) =
    if matches_table_part project && (matches_table_part dataset && matches_table_part table)
    then ok (record { project = project; dataset = dataset; table = table })
    else err (errorf "invalid billing table segment %q (index %d)")
checked_parts _ = err (errorf "billing table must be project.dataset.table, got %q")

unfoldable pub validate_table_ref : String → Result Error TableRef
unfolding checked_parts
validate_table_ref table_ref = checked_parts (split b'.' (trim_space table_ref))

-- The query: its table stands in the text of the SQL, the rest are query parameters; a location
-- that is not set is `none`.
pub record SpendQuery : Type 0 where
  pub from_table : TableRef
  pub start_ts : Time
  pub cluster : String
  pub namespace : String
  pub location : Option String

-- What the iterator's first Next gives: no row, a row with its total_cost, or an error.
pub data FirstRow (F : Type 0) : Type 0 where
  no_row : FirstRow F
  row : F → FirstRow F
  row_error : Error → FirstRow F

pub record BigQuery (F S : Type 0) : Type 0 where
  pub now : S → Time × S
  pub read : SpendQuery → S → Result Error (FirstRow F) × S

abbrev pub query_location : String → Option String
query_location location = if trim_space location == "" then none else some (trim_space location)

module _ {F : Type 0} (zero_cost : F) where
  unfoldable pub total_cost : Result Error (FirstRow F) → Result Error F
  total_cost (err e) = err (wrap "bigquery read: %w" e)
  total_cost (ok no_row) = ok zero_cost
  total_cost (ok (row total)) = ok total
  total_cost (ok (row_error e)) = err (wrap "bigquery row: %w" e)

module _ {F S : Type 0} (zero_cost : F) where
  abbrev pub read_total : BigQuery F S → SpendQuery → S → Result Error F × S
  read_total client query s =
      let (found, s') = client.read query s in (total_cost zero_cost found, s')

  unfoldable pub query_table :
      BigQuery F S
      → String
      → String
      → String
      → Duration
      → Result Error TableRef
      → S
      → Result Error F × S
  unfolding total_cost
  query_table client cluster_name namespace location lookback (err e) s = (err e, s)
  query_table client cluster_name namespace location lookback (ok table) s =
      if cluster_name == "" || namespace == ""
      then (err (errorf "clusterName and namespace must be set"), s)
      else let (now, s') = client.now s in
        read_total client
          (record {
            from_table = table;
            start_ts = add now (negated lookback);
            cluster = cluster_name;
            namespace = namespace;
            location = query_location location;
          })
          s'

  -- NamespaceSpendUSD; `none` is a nil querier or one with a nil client
  unfoldable pub namespace_spend_usd :
      Option (BigQuery F S) → String → String → String → String → Duration → S → Result Error F × S
  unfolding query_table
  namespace_spend_usd none table_ref cluster_name namespace location lookback s =
      (err (errorf "bigquery client is not configured"), s)
  namespace_spend_usd (some client) table_ref cluster_name namespace location lookback s =
      query_table client cluster_name namespace location lookback (validate_table_ref table_ref) s

  -- NewSpendQuerier, as the reconciler uses it
  unfoldable pub new_spend_querier : BigQuery F S → NamespaceSpendQuerier F S
  unfolding namespace_spend_usd
  new_spend_querier client = record { namespace_spend_usd = namespace_spend_usd (some client) }
