-- ===== src/Entropy.antt =====
-- Protocol/scripts/server-randomness-policy.mjs: the slot of a round's server entropy, and whether the
-- SlotHashes account already holds it.
pub mod Available
pub mod Slot
use myne.Js.{Value}
use myne.Recovery.{text_to_bigint}
use myne.Base.{
  ℕ, zero, suc, ◌+◌, ◌-◌, ◌*◌, ◌/◌, ◌%◌, ◌^◌, ◌==◌, ltb, leb, Bool, true, false, not, ◌&&◌, ◌||◌,
  Option, none, some, List, [], ◌∷◌, length, Result, ok, err, assertion, assert, ◌>>=◌, ◌>>◌,
  if◌then◌else◌,
}
use myne.Base.Int.{ℤ, pos, negsuc}

-- `2n ** 63n` and the value of a slot that is not locked.
abbrev pub server_randomness_slot_flag : ℕ
server_randomness_slot_flag = 2 ^ 63

abbrev pub server_randomness_pending : ℕ
server_randomness_pending = 2 ^ 64 - 1

unfoldable pub is_pending : ℤ → Bool
is_pending (pos n) = n == server_randomness_pending
is_pending (negsuc n) = false

-- The bit of a BigInt, in two's complement, and the bits below it.
unfoldable pub has_flag : ℤ → Bool
has_flag (pos n) = n / server_randomness_slot_flag % 2 == 1
has_flag (negsuc n) = n / server_randomness_slot_flag % 2 == 0

unfoldable pub below_flag : ℤ → ℕ
below_flag (pos n) = n % server_randomness_slot_flag
below_flag (negsuc n) = server_randomness_slot_flag - 1 - n % server_randomness_slot_flag

unfoldable pub decode_server_entropy_slot : Value → Result ℕ
decode_server_entropy_slot v = do
  encoded ← text_to_bigint v
  assert (not (is_pending encoded))
  assert (has_flag encoded)
  assert (ltb 0 (below_flag encoded))
  ok (below_flag encoded)

-- `readBigUInt64LE` at the front of the bytes.
unfoldable pub read_little_endian : ℕ → List ℕ → ℕ
read_little_endian zero bytes = 0
read_little_endian (suc n) [] = 0
read_little_endian (suc n) (byte ∷ bytes) = byte + 256 * read_little_endian n bytes

unfoldable pub skip : ℕ → List ℕ → List ℕ
skip zero bytes = bytes
skip (suc n) [] = []
skip (suc n) (byte ∷ bytes) = skip n bytes

unfoldable pub older : Option ℕ → ℕ → Option ℕ
older none slot = some slot
older (some oldest) slot = some (if ltb slot oldest then slot else oldest)

unfoldable pub is_better : Option ℕ → ℕ → Bool
is_better none slot = true
is_better (some selected) slot = ltb slot selected

unfoldable pub select : ℕ → Option ℕ → ℕ → Option ℕ
select target selected slot =
    if leb target slot && is_better selected slot then some slot else selected

-- The loop over the entries of 40 bytes that are left.
unfoldable pub scan_slots : ℕ → ℕ → List ℕ → Option ℕ → Option ℕ → Option ℕ × Option ℕ
scan_slots target zero bytes oldest selected = (oldest, selected)
scan_slots target (suc n) bytes oldest selected =
    let slot = read_little_endian 8 bytes in
    scan_slots target n (skip 40 bytes) (older oldest slot) (select target selected slot)

unfoldable pub is_aged_out : Option ℕ → ℕ → Bool
is_aged_out none target = true
is_aged_out (some oldest) target = ltb target oldest

unfoldable pub is_some : Option ℕ → Bool
is_some none = false
is_some (some n) = true

unfoldable pub positive_target : ℤ → Result ℕ
positive_target (pos n) = do assert (ltb 0 n); ok n
positive_target (negsuc n) = err assertion

-- `data` as bytes, and `BigInt(targetSlot)`.
unfoldable pub server_entropy_available : List ℕ → ℤ → Result Bool
server_entropy_available bytes target_slot = do
  target ← positive_target target_slot
  assert (leb 8 (length bytes))
  let count = read_little_endian 8 bytes
  assert (leb count 512)
  assert (leb (8 + count * 40) (length bytes))
  let scanned = scan_slots target count (skip 8 bytes) none none
  assert (not (is_aged_out scanned.0 target))
  ok (is_some scanned.1)
