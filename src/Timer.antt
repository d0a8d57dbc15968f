-- ===== src/Timer.antt =====
-- class ClientTimer (src/ClientTimer.h, src/ClientTimer.cpp). Clock readings and durations of
-- floating-point numbers are not the program's own: they are the parameter `Durations`.
pub mod Merging
use cs.Base.{ℕ, ◌+◌, ◌%◌, ◌≡◌, Bool, true, false, List, [], ◌∷◌, if◌then◌else◌}
use cs.Base.Int.{ℤ, pos}
use cs.Base.Word.{inc, to_u32, of_u32, u32_mod}

-- The operations on durations `D` and readings `T` of the clock that the timer uses: `a < b`,
-- `a + b`, the difference of two readings, and the durations 0 and 9999999999.9f.
pub record Durations (D T : Type 0) : Type 0 where
  pub less : D → D → Bool
  pub plus : D → D → D
  pub between : T → T → D
  pub nothing : D
  pub endless : D

pub record ClientTimer (D T : Type 0) : Type 0 where
  pub sum : D
  pub max : D
  pub min : D
  pub op_count : ℤ
  pub start_time : T
  pub elapsed_time : D

-- `a + b` on an `int`, with wrap-around.
unfoldable pub plus_int : ℤ → ℤ → ℤ
unfolding to_u32 of_u32
plus_int a b = of_u32 ((to_u32 a + to_u32 b) % u32_mod)

module _ {D T : Type 0} (d : Durations D T) where
  -- The constructor; it leaves the reading and the elapsed time as they are found.
  unfoldable pub new : T → D → ClientTimer D T
  new start_time elapsed_time = record {
    sum = d.nothing;
    max = d.nothing;
    min = d.endless;
    op_count = pos 0;
    start_time = start_time;
    elapsed_time = elapsed_time;
  }

  unfoldable pub start : T → ClientTimer D T → ClientTimer D T
  start now t = record t { start_time = now }

  -- End
  unfoldable pub stop : T → ClientTimer D T → ClientTimer D T
  stop now t = record t { elapsed_time = d.between t.start_time now }

  -- if (b < a) a = b;
  abbrev pub lower : D → D → D
  lower a b = if d.less b a then b else a

  -- if (b > a) a = b;
  abbrev pub higher : D → D → D
  higher a b = if d.less a b then b else a

  unfoldable pub end_and_merge : T → ClientTimer D T → ClientTimer D T
  unfolding stop inc
  end_and_merge now t =
      let t = stop now t in
      record t {
        op_count = inc t.op_count;
        sum = d.plus t.sum t.elapsed_time;
        min = lower t.min t.elapsed_time;
        max = higher t.max t.elapsed_time;
      }

  unfoldable pub merge : ClientTimer D T → ClientTimer D T → ClientTimer D T
  unfolding plus_int
  merge timer t = record t {
    sum = d.plus t.sum timer.sum;
    op_count = plus_int t.op_count timer.op_count;
    min = lower t.min timer.min;
    max = higher t.max timer.max;
  }

  -- One operation after the other, each with the readings at its start and at its end.
  unfoldable pub measure : List (T × T) → ClientTimer D T → ClientTimer D T
  unfolding start end_and_merge
  measure [] t = t
  measure ((before, after) ∷ times) t = measure times (end_and_merge after (start before t))

  -- The loop of main (src/ClientMain.cpp) over the timers of the customers.
  unfoldable pub merge_all : List (ClientTimer D T) → ClientTimer D T → ClientTimer D T
  unfolding merge
  merge_all [] t = t
  merge_all (timer ∷ timers) t = merge_all timers (merge timer t)

  -- The timer of main (src/ClientMain.cpp): started before the threads of the customers, ended when
  -- all have ended, and then merged with theirs.
  unfoldable pub total : T → T → List (ClientTimer D T) → ClientTimer D T → ClientTimer D T
  unfolding start stop merge_all
  total before after timers t = merge_all timers (stop after (start before t))
