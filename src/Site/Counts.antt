-- ===== src/Site/Counts.antt =====
-- Counting the pending requests of a kind.
use ingestion_engine.Prelude.{ℕ, ◌+◌, ◌≡◌, arith, Bool, true, false, List, [], ◌∷◌, ◌++◌}
use ingestion_engine.Server.{Request}
use ingestion_engine.Site.{Pending, asked, replied}

abbrev pub request_of : Pending → Request
request_of (asked r) = r
request_of (replied r a) = r

abbrev pub tally : Bool → ℕ
tally true = 1
tally false = 0

module _ (is_kind : Request → Bool) where
  -- How many requests of the kind are on their way, or their answers.
  abbrev pub under_way : List Pending → ℕ
  under_way [] = 0
  under_way (x ∷ rest) = tally (is_kind (request_of x)) + under_way rest

  pub under_way-append : (l m : List Pending) → under_way (l ++ m) ≡ under_way l + under_way m
  under_way-append [] m = omega arith
  under_way-append (x ∷ l) m = omega (arith, under_way-append l m)
