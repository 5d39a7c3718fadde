-- ===== src/Net/Messages/Errors.antt =====
-- The acknowledgement that `ack_error` in src/net.rs looks for.
use ginit.Base.{
  ℕ, suc, ◌+◌, ◌<◌, ◌≤◌, ◌^◌, ◌≡◌, refl, sym, ◌∙◌, pos, as_i32, Bytes, [], ◌++◌, ◌==◌, ap,
  Bool-cases, inl, inr, if◌then◌else◌, length-take, length-drop, le_bytes, le_value, length,
  length-append, take, drop, arith, append_assoc, append-nil,
}
use ginit.Base.Slices.{append-take-drop}
use ginit.Linux.Consts.{nlmsg_error}
use ginit.Net.Encode.{nlmsghdr_layout, nlmsgerr_layout}
use ginit.Net.{found, scan, on_payload}
use ginit.Net.Messages.{
  Message, encode, length-nlmsghdr, nlmsghdr-fields, on_read_at-inner, scan_error, header,
}

-- What an acknowledgement repeats of the request: all of it with an error, its header without one.
abbrev pub echo : ℕ → Bytes → Bytes
echo error request = if error == 0 then take 16 request else request

-- The acknowledgement: an error code, and the request it answers.
pub record Ack : Type 0 where
  pub message : Message
  pub error : ℕ
  pub request : Bytes
  pub is_error : message.ty ≡ nlmsg_error
  pub carries : message.payload ≡ le_bytes 4 error ++ echo error request
  pub has_header : 16 ≤ length request
  pub length_fits : 20 + length request < 2 ^ 32
  pub in_range : error < 2 ^ 32

-- The part that `nlmsgerr` has room for, and what the loop does not look at.
abbrev behind_header : ℕ → Bytes → Bytes
behind_header error request = if error == 0 then [] else drop 16 request

echo_lem :
    (error : ℕ) (request : Bytes)
    → echo error request ≡ take 16 request ++ behind_header error request
echo_lem error request = elim (Bool-cases (error == 0)) [
  | inl success ↦ rw success (sym (append-nil (take 16 request)))
  | inr failure ↦ rw failure (sym (append-take-drop 16 request))
]

le_value-le_bytes : (n : ℕ) (bs : Bytes) → n < 2 ^ 32 → le_value (take 4 (le_bytes 4 n ++ bs)) ≡ n
unfolding le_bytes le_value
le_value-le_bytes n bs h = omega arith

module _ (ack : Ack) where
  abbrev front : Bytes
  front = le_bytes 4 ack.error ++ take 16 ack.request

  abbrev behind : Bytes
  behind = behind_header ack.error ack.request

  length-front : length front ≡ 20
  unfolding le_bytes
  length-front = omega (arith, length-take 16 ack.request, ack.has_header)

  payload-splits : ack.message.payload ≡ front ++ behind
  payload-splits =
      ack.carries
      ∙ ap (λ x. le_bytes 4 ack.error ++ x) (echo_lem ack.error ack.request)
      ∙ sym (append_assoc (le_bytes 4 ack.error) (take 16 ack.request) behind)

  length-behind : 16 + length behind ≤ length ack.request
  length-behind = elim (Bool-cases (ack.error == 0)) [
    | inl success ↦ rw success ack.has_header
    | inr failure ↦ rw failure (omega (arith, length-drop 16 ack.request, ack.has_header))
  ]

  payload_fits : 16 + length ack.message.payload < 2 ^ 32
  payload_fits = omega (
    arith,
    ap length payload-splits,
    length-append front behind,
    length-front,
    length-behind,
    ack.length_fits,
  )

on_payload-ack :
    (pre : Bytes) (ack : Ack) (rest : Bytes)
    → on_payload (length pre) (pre ++ (encode ack.message ++ rest)) ≡ found (as_i32 (pos ack.error))
unfolding on_payload encode nlmsghdr_layout nlmsgerr_layout
on_payload-ack pre ack rest =
    let hdr = header ack.message in
    let n : length (pre ++ hdr) ≡ length pre + 16 = omega (
      arith,
      length-append pre hdr,
      length-nlmsghdr (16 + length ack.message.payload) ack.message.ty ack.message.flags
          ack.message.seq ack.message.pid,
    ) in
    let shape : ack.message.payload ++ rest ≡ front ack ++ (behind ack ++ rest) =
      ap (λ x. x ++ rest) (payload-splits ack) ∙ append_assoc (front ack) (behind ack) rest in
    let r =
      on_read_at-inner (pre ++ hdr) (front ack) (behind ack ++ rest)
        (λ b. found (as_i32 (pos (le_value (take 4 b))))) in
    rw
      (
        append_assoc hdr ack.message.payload rest,
        shape,
        ← append_assoc pre hdr (front ack ++ (behind ack ++ rest)),
        ← n,
        ← length-front ack,
      )
      (r ∙ rw (le_value-le_bytes ack.error (take 16 ack.request) ack.in_range) refl)

pub scan-ack :
    (fuel len : ℕ) (pre : Bytes) (ack : Ack) (rest : Bytes)
    → length pre + 16 ≤ len
    → scan (suc fuel) (pre ++ (encode ack.message ++ rest)) len (length pre)
      ≡ found (as_i32 (pos ack.error))
scan-ack fuel len pre ack rest l =
    let msg = ack.message in
    let (p, q) =
      nlmsghdr-fields (16 + length msg.payload) msg.ty msg.flags msg.seq msg.pid (payload_fits ack)
        (omega (arith, ack.is_error)) in
    rw (sym (on_payload-ack pre ack rest)) (
      unfold encode in
      rw (append_assoc (header msg) msg.payload rest) (
        scan_error fuel len pre (header msg) (msg.payload ++ rest) (length-nlmsghdr _ _ _ _ _) l
          (rw (q, ack.is_error) refl)))
