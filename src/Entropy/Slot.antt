-- ===== src/Entropy/Slot.antt =====
-- The encoding of an entropy slot.
use myne.Js.{Value, bigint}
use myne.Base.{◌-◌, ℕ, ◌+◌, ◌<◌, ◌≡◌, ◌^◌, ok, arith}
use myne.Base.Int.{pos}
use myne.Recovery.{text_to_bigint}
use myne.Entropy.{decode_server_entropy_slot, is_pending, has_flag, below_flag}

-- A slot above 0 that is below the pending mark is read back from its encoding with the flag.
pub decode_server_entropy_slot-encoded :
    (slot : ℕ)
    → 0 < slot
    → slot < 2 ^ 63 - 1
    → decode_server_entropy_slot (bigint (pos (2 ^ 63 + slot))) ≡ ok slot
unfolding decode_server_entropy_slot is_pending has_flag below_flag text_to_bigint myne.Js.bigint_of
decode_server_entropy_slot-encoded slot h k = ground arith
