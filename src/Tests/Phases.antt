-- ===== src/Tests/Phases.antt =====
-- A shutdown of a machine without processes and without files.
use ginit.Base.{pos, negsuc, [], ◌==◌, if◌then◌else◌}
use ginit.Machine.{Machine, World}
use ginit.Main.{graceful_shutdown}
use ginit.Tests.Script.{returns, fresh}

-- `open` and `kill` find nothing; the other calls succeed.
abbrev bare : Machine
bare = record {
  kernel = λ w call.
      if call.num == 2
      then returns (negsuc 1)
      else if call.num == 62
      then returns (negsuc 2)
      else returns (pos 1);
  panic_text = λ p. [];
  padding = λ n. [];
}

abbrev off : World
off = (graceful_shutdown 1 bare fresh).1
