-- ===== src/Error.antt =====
-- src/ipc/transport/struc/error.hpp: the codes of this library, and those of the layer below.
pub mod Symbols
use ipc_transport_structured.Prelude.{ℕ, Option, none, some}

-- `error::Code`, without the sentinel that no call emits. It is one enumeration in the source. Its
-- first enumerator has no initializer and so the number zero, which makes its `Error_code` a falsy
-- one; the others are apart here.
pub data NonzeroCode : Type 0 where
  mismatch_got_no_blob mismatch_got_hndl misused_schema serialize_leaf_too_big : NonzeroCode
  deserialize_target_alloc_failed log_in_misused_schema bad_auth : NonzeroCode
  internal_msg_type_unknown got_unexpected_log_in_request : NonzeroCode
  deserialize_failed_insufficient_segments deserialize_failed_segment_misaligned : NonzeroCode

pub data Code : Type 0 where
  mismatch_got_no_hndl : Code
  nonzero : NonzeroCode → Code

-- A truthy `Error_code`: one whose number is not zero. A falsy one is `none` wherever an
-- `Error_code` is an `Option ErrorCode`. The transport below also has codes of its own; those that
-- this library tests for or gives out are named.
pub data ErrorCode : Type 0 where
  struc : NonzeroCode → ErrorCode
  sends_finished_cannot_send timeout : ErrorCode
  object_shutdown_aborted_completion_handler : ErrorCode
  lower : ℕ → ErrorCode

-- The `Error_code` that a `Code` converts to.
unfoldable pub make_error_code : Code → Option ErrorCode
make_error_code mismatch_got_no_hndl = none
make_error_code (nonzero c) = some (struc c)

-- The outcome of a call with an `Error_code*` argument: a value, or a truthy code.
pub data Result {ℓ} (A : Type ℓ) : Type ℓ where
  ok : A → Result A
  err : ErrorCode → Result A

infixl 5 ◌>>=◌
abbrev pub ◌>>=◌ {ℓ κ} : {A : Type ℓ} {B : Type κ} → Result A → (A → Result B) → Result B
ok a >>= f = f a
err e >>= f = err e
