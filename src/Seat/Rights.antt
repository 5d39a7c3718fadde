-- ===== src/Seat/Rights.antt =====
-- The control message of src/seat.rs as the kernel reads it.
use ginit.Base.{
  ℕ, zero, suc, ◌-◌, ◌<◌, ◌^◌, ◌≡◌, Bytes, List, [], ◌∷◌, take, drop, le_bytes, le_value, arith,
  ◌/◌,
}
use ginit.Seat.{rights_ctrl_msg, rights_bytes}

-- So many descriptors of four bytes each.
fds_of : ℕ → Bytes → List ℕ
fds_of zero bs = []
fds_of (suc k) bs = le_value (take 4 bs) ∷ fds_of k (drop 4 bs)

-- The descriptors of an `SCM_RIGHTS` message: what `cmsg_len` counts behind the header of 16 bytes.
unfoldable pub descriptors : Bytes → List ℕ
unfolding fds_of
descriptors control = fds_of ((le_value (take 8 control) - 16) / 4) (drop 16 control)

-- The length counts the padding: a reader finds two descriptors, that of the device and one that
-- is made of the padding's four bytes, which nothing initialises.
pub descriptors-rights_bytes :
    (fd a b c d : ℕ)
    → fd < 2 ^ 32
    → descriptors (rights_bytes (a ∷ b ∷ c ∷ d ∷ []) (rights_ctrl_msg fd))
      ≡ fd ∷ le_value (a ∷ b ∷ c ∷ d ∷ []) ∷ []
unfolding descriptors rights_bytes rights_ctrl_msg le_bytes le_value
descriptors-rights_bytes fd a b c d h = grind arith
