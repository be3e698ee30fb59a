-- ===== src/CircularBuffer/Statistics.antt =====
-- `getMean` and `getStdDev` of circular-buffer.cpp, over any floating point numbers.
use stream_fdl.Prelude.{foldl, Outcome, ok, fault, assertion, length, leb, if◌then◌else◌}
use stream_fdl.Prelude.Double.{Double}
use stream_fdl.CircularBuffer.{CircularBuffer}

module _ (d : Double) where
  open d use {Value, zero_value, add, sub, mul, div, sqrt, of_ℕ}

  unfoldable pub get_mean : CircularBuffer Value → Outcome Value
  get_mean c =
      if leb 1 (length c.buffer)
      then ok (div (foldl add zero_value c.buffer) (of_ℕ (length c.buffer)))
      else fault assertion

  abbrev square_deviation : Value → Value → Value → Value
  square_deviation mean accumulator value = add accumulator (mul (sub value mean) (sub value mean))

  unfoldable pub get_std_dev : CircularBuffer Value → Value → Outcome Value
  get_std_dev c mean =
      if leb 1 (length c.buffer)
      then ok
          (sqrt (div (foldl (square_deviation mean) zero_value c.buffer) (of_ℕ (length c.buffer))))
      else fault assertion
