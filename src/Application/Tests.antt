-- ===== src/Application/Tests.antt =====
-- app/application: the switches and the compatibility route on concrete rows.
use range_apply.Application.Engine.{EngineStore, get_or_create, submit}
use range_apply.Application.Engine.Boundary.{submit-live}
use range_apply.Application.Models.{in_submitted}
use range_apply.Application.Rows.{ApplicationRow}
use range_apply.Common.{[], false, none, some, true, ◌≡◌}
use range_apply.Core.Errors.{Result}

abbrev empty_store : EngineStore
empty_store = record {
  rows = [];
  events = [];
  switches = [];
  job_links = [];
  job_sources = [];
  approved_artifacts = [];
}

submit-live_example :
    ((submit empty_store "a1" 3 "j1" true false none (some "t") (some "o1")).0.rows
      ≡ (get_or_create empty_store "a1" 3 "j1" (some "t") (some "o1") none none).0.rows)
    × ((row : ApplicationRow)
        → (submit empty_store "a1" 3 "j1" true false none (some "t") (some "o1")).1 ≡ Result.ok row
        → (row ≡ (get_or_create empty_store "a1" 3 "j1" (some "t") (some "o1") none none).1)
          × (in_submitted row.status ≡ true))
submit-live_example = submit-live empty_store "a1" 3 "j1" true none (some "t") (some "o1")
