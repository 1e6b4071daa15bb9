-- ===== src/Budget/Tests.antt =====
-- Limits of concrete answers.
use keyhole_sdk.Base.{ℕ, ◌≡◌, refl, String, Option, none, some}
use keyhole_sdk.Base.Json.{Json, num, str, Fields, end, field, get_field}
use keyhole_sdk.Base.Text.{is_space, strip, strip_left, strip_right}
use keyhole_sdk.Budget.Outcomes.{unknown_pressure, deferred, classify_outcome}
use keyhole_sdk.Budget.Parser.{parse_limit_outcome, parse_empty, limit_result, snapshot_of}
use keyhole_sdk.Budget.Parser.Pressure.{IsReported, parse_limit_outcome-IsReported}

abbrev show : Json → String
show (str s) = s
show _ = "value"

abbrev number : Json → Option ℕ
number (num n) = some n
number _ = none

abbrev same : String → String
same s = s

abbrev failed : Fields
failed = field "error" (str "overloaded") end

-- A 503 is a deferral without a body, and an unknown pressure with one.
overload :
    ((parse_limit_outcome show number number same end (some 503) "r" "" "").outcome_class
      ≡ deferred)
    × ((parse_limit_outcome show number number same failed (some 503) "r" "" "").outcome_class
        ≡ unknown_pressure)
unfolding parse_limit_outcome parse_empty limit_result classify_outcome get_field strip strip_left
    strip_right is_space
overload = (refl, refl)

parse_limit_outcome-IsReported_example :
    IsReported show number number same failed
      (some 503)
      (parse_limit_outcome show number number same failed (some 503) "r" "" "")
parse_limit_outcome-IsReported_example =
    parse_limit_outcome-IsReported show number number same failed (some 503) "r" "" ""

abbrev spent : Fields
spent = field "budget_class" (str "event") (field "budget_remaining" (num 0) end)

-- A remaining budget of zero is read as unknown.
zero_is_unknown : (snapshot_of show number number same spent).budget_remaining ≡ none
unfolding snapshot_of get_field
zero_is_unknown = refl
