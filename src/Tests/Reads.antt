-- ===== src/Tests/Reads.antt =====
-- The theorems on reads and observations, at a concrete table.
use orisun.Base.{Option, ℕ, ◌≡◌, refl, ◌≤◌, true, some, List, [], ◌∷◌, pos}
use orisun.Status.{Result, ok}
use orisun.Sqlite.Table.{Row, IsLatest, descending}
use orisun.Sqlite.Save.{ConsistencyCheck}
use orisun.Observations.{
  ConsistencyObservation, consistency_checks_from_observations, max_consistency_observations,
}
use orisun.Observations.Checked.{AreChecked, consistency_checks_from_observations-AreChecked}
use orisun.Sqlite.Save.Insert.{stored_rows}
use orisun.Sqlite.Read.{
  ReadRequest, ReadIo, scan_rows, get_batch, LatestByCriteriaBatch, matches, from_true, read_limit,
  max_read_batch_size, batch_rows, get_latest_by_criteria,
}
use orisun.Sqlite.Read.Page.{IsPage}
use orisun.Sqlite.Read.Batch.{asked, page_size, get_batch-IsPage}
use orisun.Sqlite.Read.Context.{some_true, get_latest_by_criteria-IsLatest}
use orisun.Tests.Data.{moment, deposit, account_tag, account_query}

abbrev table : List Row
table = stored_rows 2 moment (deposit ∷ deposit ∷ []) 1

abbrev scan : Row → Result ℕ
scan row = ok row.global_id

abbrev available : ReadIo
available = record { known_boundary = true; took_connection = true; ran = true }

-- The last deposit of the account.
abbrev last_one : ReadRequest
last_one = record {
  query = some (record { criteria = some (record { tags = some account_tag ∷ [] }) ∷ [] });
  direction = descending;
  from_position = some (record { commit_position = pos 2; prepare_position = pos 2 });
  count = 1;
}

read_last : get_batch scan available table (some last_one) ≡ ok (2 ∷ [])
unfolding get_batch stored_rows orisun.Query.validate_query orisun.Query.validate_tag
    orisun.Document.field orisun.Query.validate_criteria orisun.Query.validate_query_tags
read_last = refl

get_batch-IsPage_example :
    (page : List Row) × (scan_rows scan page ≡ ok (2 ∷ []))
    × IsPage (asked last_one) descending (page_size 1) table page
unfolding orisun.Sqlite.Read.query_criteria
get_batch-IsPage_example =
    get_batch-IsPage scan available table last_one (2 ∷ []) ((refl, tt), tt) read_last

abbrev last_deposit : LatestByCriteriaBatch ℕ
last_deposit = record {
  matched = some 2 ∷ [];
  context = record { commit_position = pos 2; prepare_position = pos 2 };
  found = true;
}

looked_up : get_latest_by_criteria scan available table account_query ≡ ok last_deposit
unfolding get_latest_by_criteria stored_rows orisun.Query.validate_read_criteria
    orisun.Query.validate_tag orisun.Document.field
looked_up = refl

get_latest_by_criteria-IsLatest_example :
    IsLatest (some_true account_query) table last_deposit.context
get_latest_by_criteria-IsLatest_example =
    get_latest_by_criteria-IsLatest scan available table account_query last_deposit ((refl, tt), tt)
      looked_up

abbrev observed : List (Option ConsistencyObservation)
observed =
    some (record {
      query = some (record {
        criteria =
            some (record {
              tags = some (record { key = "account"; value = "A"; operator = "eq" }) ∷ [];
            })
            ∷ [];
      });
      position = some last_deposit.context;
    })
    ∷ []

abbrev observed_checks : List ConsistencyCheck
observed_checks = record { criteria = account_query; position = last_deposit.context } ∷ []

observed_normally : consistency_checks_from_observations observed ≡ ok observed_checks
unfolding consistency_checks_from_observations
observed_normally = refl

consistency_checks_from_observations-AreChecked_example :
    AreChecked 1 observed_checks × (1 ≤ max_consistency_observations)
consistency_checks_from_observations-AreChecked_example =
    consistency_checks_from_observations-AreChecked observed observed_checks observed_normally
