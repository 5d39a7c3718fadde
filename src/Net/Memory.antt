-- ===== src/Net/Memory.antt =====
-- The reads of the buffer in the inner loop of `ack_error` of src/net.rs.
use ginit.Base.{
  ℕ, zero, suc, ◌+◌, ◌≤◌, inl, inr, Bytes, length, not_ltb→le, le→not_ltb, ltb, ◌==◌, Bool-cases,
  le_value, take, drop, arith,
}
use ginit.Base.Slices.{slice_inside}
use ginit.Linux.Consts.{nlmsg_error}
use ginit.Net.{
  Scan, found, exhausted, index_panic, beyond, unfinished, scan, on_read_at, on_payload,
}
use ginit.Net.Encode.{nlmsghdr_layout, nlmsgerr_layout}

-- The loop has read nothing beyond the buffer, and has not panicked.
abbrev pub IsInside : Scan → Type 0
IsInside (found error) = Unit
IsInside exhausted = Unit
IsInside unfinished = Unit
IsInside index_panic = ⊥
IsInside beyond = ⊥

on_read_at-IsInside :
    (i size : ℕ) (buf : Bytes) (next : Bytes → Scan)
    → i + size ≤ length buf
    → ((b : Bytes) → IsInside (next b))
    → IsInside (on_read_at i buf size next)
unfolding on_read_at
on_read_at-IsInside i size buf next l h =
    rw (le→not_ltb (length buf) i (omega arith), slice_inside i (i + size) buf (omega arith) l)
      (h _)

on_payload-IsInside : (i : ℕ) (buf : Bytes) → i + 36 ≤ length buf → IsInside (on_payload i buf)
unfolding on_payload nlmsghdr_layout nlmsgerr_layout
on_payload-IsInside i buf l = on_read_at-IsInside (i + 16) 20 buf _ (omega arith) (λ b. tt)

-- Where 20 bytes of the buffer lie behind those that the kernel has stored, the loop reads inside
-- of the buffer only, whatever the messages in it are.
pub scan-IsInside :
    (fuel : ℕ) (buf : Bytes) (len i : ℕ) → len + 20 ≤ length buf → IsInside (scan fuel buf len i)
unfolding scan nlmsghdr_layout
scan-IsInside zero buf len i l = tt
scan-IsInside (suc fuel) buf len i l = elim (Bool-cases (ltb len (i + 16))) [
  | inl short ↦ rw short tt
  | inr enough ↦ rw enough (
      on_read_at-IsInside i 16 buf _ (omega (arith, not_ltb→le len (i + 16) enough)) (λ hdr.
        elim (Bool-cases (le_value (take 2 (drop 4 hdr)) == nlmsg_error)) [
          | inl error ↦
              rw error (on_payload-IsInside i buf (omega (arith, not_ltb→le len (i + 16) enough)))
          | inr other ↦ rw other (scan-IsInside fuel buf len (i + le_value (take 4 hdr)) l)
        ]))
]
