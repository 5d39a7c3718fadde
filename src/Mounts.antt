-- ===== src/Mounts.antt =====
-- src/mounts.rs: reading the mounted directories into an array, each with a NUL behind it.
pub mod Feed
pub mod Array
pub mod Chunk
pub mod File
pub mod Lines
pub mod Cut
use ginit.Base.{
  ℕ, zero, suc, ◌+◌, leb, ℤ, pos, negsuc, neg, is_neg, try_i32, try_u32, Bytes, [], ◌∷◌, Option,
  none, some, text, length, zeros, slice, copy_from_slice, position, if◌then◌else◌,
}
use ginit.Machine.{out_of_bounds, M, pure, stop, spent, ◌>>=◌}
use ginit.Linux.Consts.{o_rdonly, enomem}
use ginit.Linux.Calls.{read, open_file}
use ginit.Linux.Console.{panic, unwrap, with_fd}

pub data MountParserState : Type 0 where
  before_directory : MountParserState
  directory : MountParserState
  after_directory : MountParserState

-- The variables of `read_mounts_from_fd` that live across reads.
pub record Parser : Type 0 where
  pub state : MountParserState
  pub cursor : ℕ
  pub out : Bytes

-- What one round of the inner loop does next.
pub data Flow : Type 0 where
  again : Parser → ℕ → Flow
  broke : Parser → Flow
  returned : ℤ → Bytes → Flow
  faulted : Flow
  ran_out : Flow

-- `done += p + 1; if done >= buf.len() { break; }`
abbrev advance : Parser → ℕ → ℕ → Flow
advance p len done = if leb len done then broke p else again p done

skip_past : ℕ → MountParserState → Parser → Bytes → ℕ → ℕ → Flow
skip_past delimiter target p remaining len done = elim (position delimiter remaining) [
  | none ↦ broke p
  | some q ↦ advance (record p { state = target }) len (done + (q + 1))
]

-- The directory's bytes and the NUL go to `out`.
put_piece : Parser → Bytes → Option Parser
put_piece p piece = elim (copy_from_slice p.out p.cursor piece) [
  | none ↦ none
  | some copied ↦ elim (copy_from_slice copied (p.cursor + length piece) (0 ∷ [])) [
    | none ↦ none
    | some ended ↦ some (record p { cursor = p.cursor + length piece + 1; out = ended })
  ]
]

-- `if cursor + p + 1 >= out.len() { return -linux::ENOMEM; }`
pub guarded_put : Parser → Bytes → (Parser → Flow) → Flow
guarded_put p piece next =
    if leb (length p.out) (p.cursor + length piece + 1)
    then returned (neg enomem) p.out
    else elim (put_piece p piece) [ none ↦ faulted | some p' ↦ next p' ]

copy_directory : Parser → Bytes → ℕ → ℕ → Flow
copy_directory p remaining len done = elim (position b' ' remaining) [
  | some q ↦ elim (slice 0 q remaining) [
    | none ↦ faulted
    | some piece ↦
        guarded_put p piece
          (λ p'. advance (record p' { state = after_directory }) len (done + (q + 1)))
  ]
  | none ↦ guarded_put p remaining (λ p'. broke p')
]

parse_in : MountParserState → Parser → Bytes → ℕ → ℕ → Flow
parse_in before_directory p remaining len done = skip_past b' ' directory p remaining len done
parse_in directory p remaining len done = copy_directory p remaining len done
parse_in after_directory p remaining len done =
    skip_past b'\n' before_directory p remaining len done

-- One round of the inner loop.
unfoldable pub parse_round : Parser → Bytes → ℕ → ℕ → Flow
unfolding parse_in skip_past copy_directory guarded_put put_piece
parse_round p buf n done = elim (slice done n buf) [
  | none ↦ faulted
  | some remaining ↦ parse_in p.state p remaining (length buf) done
]

-- `continue`, or what ends the loop.
pub go_on : Flow → (Parser → ℕ → Flow) → Flow
go_on (again p done) next = next p done
go_on (broke p) next = broke p
go_on (returned e out) next = returned e out
go_on faulted next = faulted
go_on ran_out next = ran_out

-- The inner loop, over the first `n` bytes of `buf`.
unfoldable pub parse_chunk : ℕ → Parser → Bytes → ℕ → ℕ → Flow
unfolding parse_round go_on
parse_chunk zero p buf n done = ran_out
parse_chunk (suc fuel) p buf n done =
    go_on (parse_round p buf n done) (λ p' done'. parse_chunk fuel p' buf n done')

unfoldable pub after_chunk : Flow → (Parser → M (ℤ × Bytes)) → M (ℤ × Bytes)
after_chunk (broke p) next = next p
after_chunk (returned e out) next = pure (e, out)
after_chunk (again p done) next = stop spent
after_chunk faulted next = panic out_of_bounds
after_chunk ran_out next = stop spent

-- The `match ret` behind `read`.
unfoldable pub on_read : ℤ → Bytes → Parser → (Parser → M (ℤ × Bytes)) → M (ℤ × Bytes)
on_read (pos zero) buf p next = do n ← unwrap (try_i32 (pos p.cursor)); pure (n, p.out)
on_read (negsuc e) buf p next = do n ← unwrap (try_i32 (negsuc e)); pure (n, p.out)
on_read (pos (suc k)) buf p next = after_chunk (parse_chunk (suc (suc k)) p buf (suc k) 0) next

-- The outer loop; the fuel bounds the number of reads.
unfoldable pub read_loop : ℕ → ℕ → Parser → M (ℤ × Bytes)
unfolding on_read after_chunk
read_loop zero fd p = stop spent
read_loop (suc fuel) fd p = do
  (ret, buf) ← read fd (zeros 256)
  on_read ret buf p (read_loop fuel fd)

-- The result is that of the source, and the array as the function leaves it.
unfoldable pub read_mounts_from_fd : ℕ → ℕ → Bytes → M (ℤ × Bytes)
unfolding read_loop
read_mounts_from_fd fuel fd out =
    read_loop fuel fd (record { state = before_directory; cursor = 0; out = out })

unfoldable pub read_mounts : ℕ → Bytes → M (ℤ × Bytes)
unfolding read_mounts_from_fd
read_mounts fuel out = do
  fd ← open_file (text "/proc/mounts") o_rdonly 0
  if is_neg fd
      then pure (fd, out)
      else (do n ← unwrap (try_u32 fd); with_fd n (read_mounts_from_fd fuel n out))
