-- ===== src/Condition/Tests.antt =====
-- Half a second before a full one, and two seconds later.
use cpp_practise.Base.{some, ◌≡◌, refl}
use cpp_practise.Condition.{Timespec, deadline}

abbrev clock : Timespec
clock = record { sec = 100; nsec = 500000000 }

deadline-clock : deadline clock 2500000000 ≡ some (record { sec = 103; nsec = 0 })
unfolding deadline
deadline-clock = refl
