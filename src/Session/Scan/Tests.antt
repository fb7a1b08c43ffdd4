-- ===== src/Session/Scan/Tests.antt =====
-- Runs of Scan.
use brisedb.Prelude.{◌≡◌, List, [], ◌∷◌, Bytes, arith}
use brisedb.Types.{ok, panic}
use brisedb.Session.Scan.{page}
use brisedb.Session.Scan.Pages.{pages, pages_complete, page-panics}

abbrev some_keys : List Bytes
some_keys = (1 ∷ []) ∷ (2 ∷ []) ∷ (3 ∷ []) ∷ []

pages_complete_example : pages 4 some_keys 0 2 ≡ ok some_keys
pages_complete_example = pages_complete some_keys 2 (omega arith) (omega arith) (omega arith)

page-panics_example : page some_keys 1 9_223_372_036_854_775_807 ≡ panic
page-panics_example = page-panics some_keys 1 9_223_372_036_854_775_807 (omega arith) (omega arith)
