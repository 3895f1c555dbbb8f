-- ===== src/Prelude/Types.antt =====
-- spec/phase0/types.go: the numbers and the byte arrays of the consensus layer. Numbers are uint64
-- in the source; an array is its list of bytes.
use Prim.Native.Nat.{ℕ, zero, suc, ◌^◌}
use mathlib.Core.Bool.{Bool, true, false}
use mathlib.Core.List.{List}

abbrev pub Slot : Type 0
Slot = ℕ

abbrev pub Epoch : Type 0
Epoch = ℕ

abbrev pub CommitteeIndex : Type 0
CommitteeIndex = ℕ

abbrev pub ValidatorIndex : Type 0
ValidatorIndex = ℕ

abbrev pub Gwei : Type 0
Gwei = ℕ

abbrev pub Bytes : Type 0
Bytes = List ℕ

abbrev pub Root : Type 0
Root = Bytes

abbrev pub Version : Type 0
Version = Bytes

abbrev pub DomainType : Type 0
DomainType = Bytes

abbrev pub Domain : Type 0
Domain = Bytes

abbrev pub BlsPubKey : Type 0
BlsPubKey = Bytes

abbrev pub BlsSignature : Type 0
BlsSignature = Bytes

-- One more than the largest uint64.
abbrev pub u64_mod : ℕ
u64_mod = 2 ^ 64

-- A signed integer of the source: the size of a chunk, or a time in seconds.
pub data ℤ : Type 0 where
  pos : ℕ → ℤ
  -- `negsuc n` is -(n + 1).
  negsuc : ℕ → ℤ

abbrev pub is_zero : ℤ → Bool
is_zero (pos zero) = true
is_zero (pos (suc n)) = false
is_zero (negsuc n) = false
