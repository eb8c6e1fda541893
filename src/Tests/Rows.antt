-- ===== src/Tests/Rows.antt =====
-- Runs of the row scanner.
use go_fibe.Base.{false, ◌≡◌, [], ◌∷◌, map}
use go_fibe.Base.Exec.{ok}
use go_fibe.Db.Rows.{scan_rows}
use go_fibe.Db.Rows.Scanning.{monitors, scan_of, columns_of, row_of, scan_rows-row_of}
use go_fibe.Tests.Fixtures.{site}

scan_rows-row_of_example :
    scan_rows
      (scan_of monitors)
      (columns_of monitors)
      false
      (map (row_of monitors) (site ∷ site ∷ []))
    ≡ ok (site ∷ site ∷ [])
scan_rows-row_of_example = scan_rows-row_of monitors (site ∷ site ∷ [])
