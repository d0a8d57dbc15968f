-- ===== src/Tests/Timer.antt =====
-- Runs of src/ClientTimer.cpp with whole microseconds.
use cs.Base.{ℕ, ◌+◌, ◌-◌, ◌≡◌, refl, List, [], ◌∷◌, ltb, arith}
use cs.Timer
use cs.Timer.{Durations, ClientTimer}
use cs.Timer.Merging.{IsOrdered, Agrees, Row, timers_of, total-measure}

abbrev microseconds : Durations ℕ ℕ
microseconds = record {
  less = ltb;
  plus = λ a b. a + b;
  between = λ before after. after - before;
  nothing = 0;
  endless = 9999999999;
}

microseconds-IsOrdered : IsOrdered microseconds
microseconds-IsOrdered = record {
  irrefl = λ a. ground arith;
  trans = λ a b c ab bc. ground arith;
  not_trans = λ a b c ab bc. ground arith;
}

-- Two customers, with two operations and with one.
abbrev two_rows : List (Row microseconds)
two_rows = (0, 0, (10, 25) ∷ (30, 34) ∷ []) ∷ (0, 0, (12, 90) ∷ []) ∷ []

total-measure_example :
    Agrees
      (Timer.total microseconds 5 95 (timers_of microseconds two_rows) (Timer.new microseconds 0 0))
      (Timer.measure microseconds
        ((10, 25) ∷ (30, 34) ∷ (12, 90) ∷ [])
        (Timer.new microseconds 1 2))
total-measure_example = total-measure microseconds microseconds-IsOrdered two_rows 5 95 0 1 0 2

longest :
    (Timer.total microseconds 5 95
      (timers_of microseconds two_rows)
      (Timer.new microseconds 0 0)).max
    ≡ 78
unfolding Timer.total Timer.new Timer.measure Timer.merge_all Timer.merge Timer.start Timer.stop
    Timer.end_and_merge
longest = refl
