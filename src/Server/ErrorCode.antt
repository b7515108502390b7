-- ===== src/Server/ErrorCode.antt =====
-- server/include/custom_errors.h: the result codes of the server's functions.
use Prim.Native.Nat.{ℕ}
use mathlib.Core.Bool.{Bool, true, false}

pub data ErrorCode : Type 0 where
  ce_success ce_common ce_not_inited ce_alloc ce_init_3rd ce_lock ce_size ce_max_size
        ce_invalid_arg :
      ErrorCode

-- Whether an allocation of that many bytes succeeds. A theorem ranges over all such functions.
abbrev pub Calloc : Type 0
Calloc = ℕ → Bool

abbrev pub succeeded : ErrorCode → Bool
succeeded ce_success = true
succeeded _ = false
