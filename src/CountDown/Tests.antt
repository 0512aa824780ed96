-- ===== src/CountDown/Tests.antt =====
-- A thread waits for a count of two, of which one is left.
use cpp_practise.Base.{◌≡◌, true, arith}
use cpp_practise.CountDown.{CountDown, done, later, downs, waits, is_positive, wait_lem}

abbrev one_left : CountDown
one_left = record { count = 1; asleep = 1; awake = 0 }

wait_lem_example : is_positive 1 ≡ true
wait_lem_example = wait_lem 2 one_left (omega arith) (later (later done waits) downs) (omega arith)
