-- ===== src/Tests/Script.antt =====
-- A kernel that answers from a script: the reply to a call is the one at the place that the number
-- of calls before it gives, and a plain 0 behind the end.
use ginit.Base.{ℕ, ℤ, pos, Bytes, List, [], length, get_elem?, none, some, replicate}
use ginit.Machine.{Machine, World, Reply, parent}

abbrev pub returns : ℤ → Reply
returns ret = record { ret = ret; stored = []; ints = []; masks = [] }

abbrev pub reads : Bytes → Reply
reads b = record { ret = pos (length b); stored = b; ints = []; masks = [] }

abbrev reply_at : List Reply → ℕ → Reply
reply_at script n = elim (get_elem? script n) [ none ↦ returns (pos 0) | some r ↦ r ]

abbrev pub scripted : List Reply → Machine
scripted script = record {
  kernel = λ w call. reply_at script (length w.history);
  panic_text = λ p. [];
  padding = λ n. replicate n 0xaa;
}

abbrev pub fresh : World
fresh = record { task = parent; history = [] }
