-- ===== src/Tests/Data.antt =====
-- The data of the tests: events, checks and a database of sqlite/sqlite_eventstore.go.
use orisun.Base.{ℕ, none, some, List, [], ◌∷◌, codes}
use orisun.Position.{not_exists_position}
use orisun.Query.{Tag, ReadCriterion}
use orisun.Document.{JsonValue, PreparedEventDocument}
use orisun.Sqlite.Table.{Database}
use orisun.Sqlite.Save.{ConsistencyCheck}

abbrev pub moment : List ℕ
moment = codes "2026-01-01"

abbrev pub deposit : PreparedEventDocument
deposit = record {
  event_id = codes "e1";
  event_type = codes "Deposited";
  metadata = some JsonValue.null;
  object = some (("account", JsonValue.text (codes "A")) ∷ []);
}

abbrev pub broken : PreparedEventDocument
broken = record {
  event_id = codes "e2";
  event_type = codes "Broken";
  metadata = none;
  object = none;
}

abbrev pub account_tag : Tag
account_tag = record { key = "account"; value = "A"; operator = "" }

abbrev pub account_query : List ReadCriterion
account_query = record { tags = account_tag ∷ [] } ∷ []

abbrev pub unused_check : ConsistencyCheck
unused_check = record { criteria = account_query; position = not_exists_position }

abbrev pub empty_database : Database
empty_database = record { events = []; writes = []; next_id = 1 }
