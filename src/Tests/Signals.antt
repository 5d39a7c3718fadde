-- ===== src/Tests/Signals.antt =====
-- A signal of two children that have ended, the second of them the user interface.
use ginit.Base.{
  ℕ, ◌≡◌, refl, pos, neg, true, [], ◌∷◌, text, zeros, replicate, arith, if◌then◌else◌, as_i32,
}
use ginit.Machine.{Machine, World, Reply, space, done}
use ginit.Linux.Calls.{read, wait4}
use ginit.Linux.Consts.{wnohang}
use ginit.Linux.Console.{stdout, with_value, writeln}
use ginit.Main.Loop.{on_signal, leaves, goes_on}
use ginit.Main.Reaping.{Signals, empty, more, Ended, ui_ended, another, on_signal-Ended}
use ginit.Tests.Script.{scripted, reads, returns, fresh}

abbrev gives : ℕ → ℕ → Reply
gives pid status = record { ret = pos pid; stored = []; ints = pos status ∷ []; masks = [] }

abbrev kernel : Machine
kernel = scripted (reads (replicate 128 1) ∷ returns (neg 11) ∷ gives 40 0 ∷ gives 30 256 ∷ [])

s1 : World
s1 = (read 3 (zeros 128) kernel fresh).1

s2 : World
s2 = (read 3 (zeros 128) kernel s1).1

s3 : World
s3 = (wait4 (neg 1) (space 4) wnohang kernel s2).1

s4 : World
s4 = (wait4 (neg 1) (space 4) wnohang kernel s3).1

s5 : World
s5 = (writeln stdout (with_value "UI process died: " (pos 256)) kernel s4).1

signals : Signals kernel 3 fresh 1 s2
unfolding s1 s2 read
signals = more {w' = s1} refl (empty refl refl)

ended : Ended kernel 30 (pos 0) s2 1 true s5
unfolding s1 s2 s3 s4 s5 read wait4 as_i32 writeln with_value text
ended = another {w' = s3} refl refl (ui_ended {w' = s4} refl refl refl refl)

on_signal-Ended_example :
    on_signal 2 3 (pos 30) true kernel fresh ≡ (done (if true then leaves else goes_on), s5)
on_signal-Ended_example =
    on_signal-Ended kernel 3 30 2 1 1 fresh s2 s5 true signals (omega arith) ended (omega arith)
