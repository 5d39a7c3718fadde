-- ===== src/Net/Acks.antt =====
-- `ack_error` of src/net.rs over the datagrams that the kernel sends.
use ginit.Base.{
  ℕ, zero, suc, ◌+◌, ◌-◌, ◌*◌, ◌<◌, ◌≤◌, ◌≡◌, refl, ap, ◌∙◌, pos, as_i32, Bytes, List, [], ◌∷◌,
  ◌++◌, lt→ltb, length, length-append, length-zeros, overwrite, drop, zeros, append_assoc, arith,
}
use ginit.Base.Slices.{overwrite-drop}
use ginit.Machine.{Machine, World, done}
use ginit.Linux.Calls.{read}
use ginit.Net.{found, exhausted, scan, ack_error}
use ginit.Net.Encode.{nlmsghdr_layout}
use ginit.Net.Messages.{
  Message, encode, padding, encode_all, encode-length, AreOther, scan_past_all,
}
use ginit.Net.Messages.Errors.{Ack, scan-ack}

length-encode_all : (msgs : List Message) → 16 * length msgs ≤ length (encode_all msgs)
unfolding encode_all
length-encode_all [] = omega arith
length-encode_all (msg ∷ msgs) = omega (
  arith,
  length-append (encode msg) (padding (16 + length msg.payload) ++ encode_all msgs),
  length-append (padding (16 + length msg.payload)) (encode_all msgs),
  encode-length msg,
  length-encode_all msgs,
)

scan_past_others :
    (fuel len : ℕ) (msgs : List Message) (rest : Bytes)
    → AreOther msgs
    → length msgs < fuel
    → length (encode_all msgs) ≤ len
    → scan fuel (encode_all msgs ++ rest) len 0
      ≡ scan (suc (fuel - length msgs - 1)) (encode_all msgs ++ rest) len (length (encode_all msgs))
scan_past_others fuel len msgs rest h f l =
    let e : fuel ≡ length msgs + suc (fuel - length msgs - 1) = omega arith in
    ap (λ n. scan n (encode_all msgs ++ rest) len 0) e
    ∙ scan_past_all (suc (fuel - length msgs - 1)) len [] msgs rest h (omega arith)

-- The loop over a datagram gives the code of the first error message, whatever other messages
-- come before it and whatever follows it.
pub scan-first_error :
    (fuel len : ℕ) (msgs : List Message) (ack : Ack) (after : Bytes)
    → AreOther msgs
    → length msgs < fuel
    → length (encode_all msgs) + 16 ≤ len
    → scan fuel (encode_all msgs ++ (encode ack.message ++ after)) len 0
      ≡ found (as_i32 (pos ack.error))
scan-first_error fuel len msgs ack after h f l =
    scan_past_others fuel len msgs (encode ack.message ++ after) h f (omega arith)
    ∙ scan-ack _ len (encode_all msgs) ack after l

-- A datagram with no error message is read to its end.
scan-exhausted :
    (fuel : ℕ) (msgs : List Message) (rest : Bytes)
    → AreOther msgs
    → length msgs < fuel
    → scan fuel (encode_all msgs ++ rest) (length (encode_all msgs)) 0 ≡ exhausted
unfolding scan nlmsghdr_layout
scan-exhausted fuel msgs rest h f =
    scan_past_others fuel (length (encode_all msgs)) msgs rest h f (omega arith)
    ∙ rw (lt→ltb (length (encode_all msgs)) (length (encode_all msgs) + 16) (omega arith)) refl

-- The datagrams that `n` reads get: some without an error message, and then one with the
-- acknowledgement, behind other messages.
pub data Answers (m : Machine) (fd : ℕ) (ack : Ack) : World → ℕ → World → Type 0 where
  answer :
      {w w' : World} {n : ℕ} {d : Bytes} (msgs : List Message) (after : Bytes)
      → AreOther msgs
      → d ≡ encode_all msgs ++ (encode ack.message ++ after)
      → length d ≤ 8192
      → n ≡ 1
      → read fd (zeros 8192) m w ≡ (done (pos (length d), overwrite (zeros 8192) d), w')
      → Answers m fd ack w n w'
  other :
      {w w' w'' : World} {n : ℕ} {d : Bytes} (msgs : List Message)
      → AreOther msgs
      → d ≡ encode_all msgs
      → length d ≤ 8192
      → read fd (zeros 8192) m w ≡ (done (pos (length d), overwrite (zeros 8192) d), w')
      → Answers m fd ack w' n w''
      → Answers m fd ack w (suc n) w''

module _ (messages : ℕ) (msgs : List Message) (h : AreOther msgs) (f : 512 < messages) where
  -- The buffer holds at most 512 messages.
  few : (d : Bytes) → length (encode_all msgs) ≤ length d → length d ≤ 8192 → length msgs < messages
  few d k l = omega (arith, length-encode_all msgs)

  scan_received-ack :
      (d : Bytes) (ack : Ack) (after : Bytes)
      → d ≡ encode_all msgs ++ (encode ack.message ++ after)
      → length d ≤ 8192
      → scan messages (overwrite (zeros 8192) d) (length d) 0 ≡ found (as_i32 (pos ack.error))
  scan_received-ack d ack after e l =
      let space = drop (length d) (zeros 8192) in
      let n = ap length e in
      let a = length-append (encode_all msgs) (encode ack.message ++ after) in
      let b = length-append (encode ack.message) after in
      let room : length (encode_all msgs) + 16 ≤ length d =
        omega (arith, encode-length ack.message) in
      let shape : overwrite (zeros 8192) d
          ≡ encode_all msgs ++ (encode ack.message ++ (after ++ space)) =
        overwrite-drop (zeros 8192) d (omega (arith, length-zeros 8192))
        ∙ ap (λ x. x ++ space) e
        ∙ append_assoc (encode_all msgs) (encode ack.message ++ after) space
        ∙ ap (λ x. encode_all msgs ++ x) (append_assoc (encode ack.message) after space) in
      rw shape (
        scan-first_error messages (length d) msgs ack (after ++ space) h (few d (omega arith) l)
          room)

  scan_received-other :
      (d : Bytes)
      → d ≡ encode_all msgs
      → length d ≤ 8192
      → scan messages (overwrite (zeros 8192) d) (length d) 0 ≡ exhausted
  scan_received-other d e l =
      let space = drop (length d) (zeros 8192) in
      let n = ap length e in
      let shape : overwrite (zeros 8192) d ≡ encode_all msgs ++ space =
        overwrite-drop (zeros 8192) d (omega (arith, length-zeros 8192)) ∙ ap (λ x. x ++ space) e in
      rw (shape, n) (scan-exhausted messages msgs _ h (few d (omega arith) l))

-- After the datagrams with other messages, whose lengths are multiples of 4 as those of rtnetlink
-- are, the result is the code of the acknowledgement, whether it repeats the whole request, as with
-- an error, or its header, where the fuel is enough for the reads and for 512 messages in each, as
-- many as the buffer holds.
pub ack_error-Answers :
    (m : Machine) (fd : ℕ) (ack : Ack) (reads messages n : ℕ) (w w' : World)
    → Answers m fd ack w n w'
    → n ≤ reads
    → 512 < messages
    → ack_error reads messages fd m w ≡ (done (as_i32 (pos ack.error)), w')
unfolding ack_error
ack_error-Answers m fd ack zero messages n w w' (answer msgs after h e l one r) b f =
    absurd (omega arith)
ack_error-Answers m fd ack (suc reads) messages n w w' (answer {d = d} msgs after h e l one r) b f =
    rw (r, scan_received-ack messages msgs h f d ack after e l) refl
ack_error-Answers m fd ack zero messages n w w' (other msgs h e l r rest) b f = absurd (omega arith)
ack_error-Answers m fd ack (suc reads) messages _ w w'
      (other {w' = v} {n = n} {d = d} msgs h e l r rest) b f =
    rw (r, scan_received-other messages msgs h f d e l)
      (ack_error-Answers m fd ack reads messages n v w' rest (omega arith) f)
