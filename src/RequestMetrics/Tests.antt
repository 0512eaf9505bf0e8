-- ===== src/RequestMetrics/Tests.antt =====
-- The meters of small specifications, and the theorems at them.
use ozone.Prelude.{◌≡◌, refl, [], ◌∷◌, some}
use ozone.Prelude.Text.{split}
use ozone.RequestMetrics.{Recording, inc, sample, metrics_function, audit}
use ozone.RequestMetrics.Laws.{metrics_function_class}

abbrev not_found : Recording
not_found = record { status = 404; size = 12; since = some 7 }

sampled :
    audit (metrics_function "srv" "time,size,4XX,404,5xx") not_found
    ≡ sample "srv.resp-time" 7
      ∷ sample "srv.resp-size" 12
      ∷ inc "srv.code.4XX"
      ∷ inc "srv.code.404"
      ∷ []
unfolding audit metrics_function split
sampled = refl

metrics_function_class_example :
    audit (metrics_function "srv" "4xx") not_found ≡ inc "srv.code.4xx" ∷ []
metrics_function_class_example =
    metrics_function_class "4" "x" "x" "srv" not_found (refl, refl, refl)

other_code : audit (metrics_function "srv" "503") not_found ≡ []
unfolding audit metrics_function split
other_code = refl
