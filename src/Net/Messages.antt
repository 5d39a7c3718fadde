-- ===== src/Net/Messages.antt =====
-- The inner loop of `ack_error` in src/net.rs.
pub mod Errors
use ginit.Base.{
  ℕ, suc, ◌+◌, ◌<◌, ◌≤◌, ◌^◌, ◌≡◌, ◌≢◌, refl, sym, ◌∙◌, pos, as_i32, Bytes, List, [], ◌∷◌, ◌++◌,
  ltb, ◌==◌, ◌-◌, ◌*◌, ◌/◌, ◌%◌, ap, zeros, Bool-cases, inl, inr, if◌then◌else◌, length-take,
  length-drop, true, false, le→not_ltb, le_bytes, le_value, length, length-append, take, drop,
  arith, append_assoc, append-nil,
}
use ginit.Base.Slices.{slice-inner, append-take-drop}
use ginit.Linux.Consts.{nlmsg_error}
use ginit.Net.Encode.{nlmsghdr, nlmsghdr_layout, nlmsgerr_layout}
use ginit.Net.{Scan, found, scan, on_read_at, on_payload}

-- A message of the kernel, as netlink(7) describes it.
pub record Message : Type 0 where
  pub ty : ℕ
  pub flags : ℕ
  pub seq : ℕ
  pub pid : ℕ
  pub payload : Bytes

unfoldable pub encode : Message → Bytes
encode msg = nlmsghdr (16 + length msg.payload) msg.ty msg.flags msg.seq msg.pid ++ msg.payload

-- The zeros behind a message of so many bytes, up to the next multiple of `NLMSG_ALIGNTO`; the
-- length in its header does not count them.
abbrev pub padding : ℕ → Bytes
padding n = zeros ((n + 3) / 4 * 4 - n)

unfoldable pub encode_all : List Message → Bytes
unfolding encode
encode_all [] = []
encode_all (msg ∷ msgs) = encode msg ++ (padding (16 + length msg.payload) ++ encode_all msgs)

-- A message that is no error, whose header can hold its length, and that has no padding behind it:
-- the loop goes on at the end of the message and not at the multiple of 4 behind it.
abbrev pub IsOther : Message → Type 0
IsOther msg =
    (msg.ty ≢ nlmsg_error)
    × (msg.ty < 2 ^ 16)
    × (16 + length msg.payload < 2 ^ 32)
    × ((16 + length msg.payload) % 4 ≡ 0)

no_padding : (n : ℕ) → n % 4 ≡ 0 → padding n ≡ []
unfolding zeros
no_padding n h = let none_left : (n + 3) / 4 * 4 - n ≡ 0 = omega arith in rw none_left refl

pub encode_all-cons :
    (msg : Message) (msgs : List Message)
    → IsOther msg
    → encode_all (msg ∷ msgs) ≡ encode msg ++ encode_all msgs
unfolding encode_all
encode_all-cons msg msgs (ne, t, b, aligned) =
    rw (no_padding (16 + length msg.payload) aligned) refl

pub length-nlmsghdr : (a b c d e : ℕ) → length (nlmsghdr a b c d e) ≡ 16
unfolding nlmsghdr le_bytes
length-nlmsghdr a b c d e = refl

pub nlmsghdr-fields :
    (a b c d e : ℕ)
    → a < 2 ^ 32
    → b < 2 ^ 16
    → (le_value (take 4 (nlmsghdr a b c d e)) ≡ a)
      × (le_value (take 2 (drop 4 (nlmsghdr a b c d e))) ≡ b)
unfolding nlmsghdr le_bytes le_value
nlmsghdr-fields a b c d e ha hb = (omega arith, omega arith)

-- A read of a part that lies inside the buffer.
pub on_read_at-inner :
    (pre mid ys : Bytes) (next : Bytes → Scan)
    → on_read_at (length pre) (pre ++ (mid ++ ys)) (length mid) next ≡ next mid
unfolding on_read_at
on_read_at-inner pre mid ys next = rw (
  le→not_ltb (length (pre ++ (mid ++ ys))) (length pre)
      (omega (arith, length-append pre (mid ++ ys))),
  slice-inner pre mid ys,
)

module _ (fuel len : ℕ) (pre hdr rest : Bytes) (h : length hdr ≡ 16)
    (l : length pre + 16 ≤ len) where
  header_read :
      (next : Bytes → Scan)
      → on_read_at (length pre) (pre ++ (hdr ++ rest)) nlmsghdr_layout.size next ≡ next hdr
  unfolding nlmsghdr_layout
  header_read next = rw (← h) (on_read_at-inner pre hdr rest next)

  fits : ltb len (length pre + nlmsghdr_layout.size) ≡ false
  unfolding nlmsghdr_layout
  fits = le→not_ltb len (length pre + 16) l

  scan_other :
      (le_value (take 2 (drop 4 hdr)) == nlmsg_error) ≡ false
      → scan (suc fuel) (pre ++ (hdr ++ rest)) len (length pre)
        ≡ scan fuel (pre ++ (hdr ++ rest)) len (length pre + le_value (take 4 hdr))
  unfolding scan
  scan_other n = rw (fits, header_read _, n)

  pub scan_error :
      (le_value (take 2 (drop 4 hdr)) == nlmsg_error) ≡ true
      → scan (suc fuel) (pre ++ (hdr ++ rest)) len (length pre)
        ≡ on_payload (length pre) (pre ++ (hdr ++ rest))
  unfolding scan
  scan_error n = rw (fits, header_read _, n)

pub encode-length : (msg : Message) → length (encode msg) ≡ 16 + length msg.payload
unfolding encode
encode-length msg =
    let a =
      length-append (nlmsghdr (16 + length msg.payload) msg.ty msg.flags msg.seq msg.pid)
        msg.payload in
    omega (arith, a, length-nlmsghdr (16 + length msg.payload) msg.ty msg.flags msg.seq msg.pid)

abbrev pub header : Message → Bytes
header msg = nlmsghdr (16 + length msg.payload) msg.ty msg.flags msg.seq msg.pid

-- The loop goes from one message to the next.
scan_past :
    (fuel len : ℕ) (pre : Bytes) (msg : Message) (rest : Bytes)
    → IsOther msg
    → length pre + 16 ≤ len
    → scan (suc fuel) (pre ++ (encode msg ++ rest)) len (length pre)
      ≡ scan fuel ((pre ++ encode msg) ++ rest) len (length (pre ++ encode msg))
unfolding encode
scan_past fuel len pre msg rest (ne, t, b, aligned) l =
    let hdr = header msg in
    let (p, q) = nlmsghdr-fields (16 + length msg.payload) msg.ty msg.flags msg.seq msg.pid b t in
    let n : length (pre ++ encode msg) ≡ length pre + (16 + length msg.payload) =
      omega (arith, length-append pre (encode msg), encode-length msg) in
    rw
      (
        n,
        append_assoc hdr msg.payload rest,
        append_assoc pre (hdr ++ msg.payload) rest,
        append_assoc hdr msg.payload rest,
      )
      (scan_other fuel len pre hdr (msg.payload ++ rest) (length-nlmsghdr _ _ _ _ _) l
          (rw q (ground arith))
        ∙ rw p refl)

abbrev pub AreOther : List Message → Type 0
AreOther [] = Unit
AreOther (msg ∷ msgs) = IsOther msg × AreOther msgs

-- Messages that are no errors lie between the loop and what follows them.
pub scan_past_all :
    (fuel len : ℕ) (pre : Bytes) (msgs : List Message) (rest : Bytes)
    → AreOther msgs
    → length pre + length (encode_all msgs) ≤ len
    → scan (length msgs + fuel) (pre ++ (encode_all msgs ++ rest)) len (length pre)
      ≡ scan fuel ((pre ++ encode_all msgs) ++ rest) len (length (pre ++ encode_all msgs))
scan_past_all fuel len pre [] rest h l =
    let e : 0 + fuel ≡ fuel = omega arith in unfold encode_all in rw (append-nil pre, e)
scan_past_all fuel len pre (msg ∷ msgs) rest (o, h) l =
    let c = encode_all-cons msg msgs o in
    let a = length-append (encode msg) (encode_all msgs) in
    let e : length (msg ∷ msgs) + fuel ≡ suc (length msgs + fuel) = omega arith in
    rw (e, c, append_assoc (encode msg) (encode_all msgs) rest)
      (scan_past (length msgs + fuel) len pre msg (encode_all msgs ++ rest) o
          (omega (arith, ap length c, a, encode-length msg))
        ∙ scan_past_all fuel len (pre ++ encode msg) msgs rest h
            (omega (arith, ap length c, a, length-append pre (encode msg)))
        ∙ rw (append_assoc pre (encode msg) (encode_all msgs)) refl)
