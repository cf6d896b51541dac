-- ===== src/Error/Symbols.antt =====
-- src/ipc/transport/struc/error.cpp: the texts and the symbols of the codes, and their printing and
-- reading.
pub mod Reading
mod Tests
use Prim.Native.String.{String}
use ipc_transport_structured.Prelude.{
  ℕ, zero, suc, ◌+◌, ◌≤◌, ◌<◌, ◌≡◌, ◌≢◌, refl, sym, ap, ◌∙◌, Bool, true, false, not, ◌&&◌, ◌||◌,
  Option, none, some, List, [], ◌∷◌, map, arith, ltb, ◌==◌, ==_iff, codes, if◌then◌else◌,
}
use ipc_transport_structured.Error.{
  Code, nonzero, mismatch_got_no_hndl, mismatch_got_no_blob, mismatch_got_hndl, misused_schema,
  serialize_leaf_too_big, deserialize_target_alloc_failed, log_in_misused_schema, bad_auth,
  internal_msg_type_unknown, got_unexpected_log_in_request,
  deserialize_failed_insufficient_segments, deserialize_failed_segment_misaligned,
}

-- `Category::message`. A text that the source writes in parts is written in one.
unfoldable pub message : Code → String
message mismatch_got_no_hndl =
    "Structured channel: received unexpected payload: message sans native handle along handles-only pipe."
message (nonzero mismatch_got_no_blob) =
    "Structured channel: received unexpected payload: message with empty blob (not even an encoded length)."
message (nonzero mismatch_got_hndl) =
    "Structured channel: received unexpected payload: continuation message contains native handle."
message (nonzero misused_schema) =
    "Structured channel: received structured message with invalid internally-set/used fields."
message (nonzero serialize_leaf_too_big) =
    "Structured message serialization (e.g., when sending over channel): A user-mutated datum (e.g., blob or string) is so large as to require a too-large segment to fit into the prescribed max size (such as max blob size in an IPC channel, when using direct serialization sans SHM).  Consider using a different serialization mechanism."
message (nonzero deserialize_target_alloc_failed) =
    "Structured message deserialization (e.g., when receiving from channel): Reader engine, when asked to supply a target memory area for a serialization-storing segment, reports it is unable to obtain an area of sufficient size, such as due to running out of mem-pool space.  Consider using a different deserialization mechanism."
message (nonzero log_in_misused_schema) =
    "Structured channel: log-in phase: received structured message with invalid internally-set/used fields."
message (nonzero bad_auth) =
    "Structured channel: auth session token in in-message does not match expected value established during log-in."
message (nonzero internal_msg_type_unknown) =
    "Structured channel: in internally-generated message the internal message type is unknown."
message (nonzero got_unexpected_log_in_request) =
    "Structured channel: log-in phase as server: actual log-in request contents differ from local user expectation."
message (nonzero deserialize_failed_insufficient_segments) =
    "Structured message deserialization: Tried to deserialize without enough input segments (e.g., none)."
message (nonzero deserialize_failed_segment_misaligned) =
    "Structured message deserialization: An input segment is not aligned as required."

-- `Category::code_symbol`. `none` is the sentinel.
unfoldable pub code_symbol : Option Code → String
code_symbol (some mismatch_got_no_hndl) = "STRUCT_CHANNEL_INTERNAL_PROTOCOL_MISMATCH_GOT_NO_HNDL"
code_symbol (some (nonzero mismatch_got_no_blob)) =
    "STRUCT_CHANNEL_INTERNAL_PROTOCOL_MISMATCH_GOT_NO_BLOB"
code_symbol (some (nonzero mismatch_got_hndl)) =
    "STRUCT_CHANNEL_INTERNAL_PROTOCOL_MISMATCH_GOT_HNDL"
code_symbol (some (nonzero misused_schema)) = "STRUCT_CHANNEL_INTERNAL_PROTOCOL_MISUSED_SCHEMA"
code_symbol (some (nonzero serialize_leaf_too_big)) = "INTERNAL_ERROR_SERIALIZE_LEAF_TOO_BIG"
code_symbol (some (nonzero deserialize_target_alloc_failed)) =
    "INTERNAL_ERROR_DESERIALIZE_TARGET_ALLOC_FAILED"
code_symbol (some (nonzero log_in_misused_schema)) =
    "STRUCT_CHANNEL_INTERNAL_PROTOCOL_LOG_IN_MISUSED_SCHEMA"
code_symbol (some (nonzero bad_auth)) = "STRUCT_CHANNEL_INTERNAL_PROTOCOL_BAD_AUTH"
code_symbol (some (nonzero internal_msg_type_unknown)) =
    "STRUCT_CHANNEL_INTERNAL_PROTOCOL_INTERNAL_MSG_TYPE_UNKNOWN"
code_symbol (some (nonzero got_unexpected_log_in_request)) =
    "STRUCT_CHANNEL_GOT_UNEXPECTED_LOG_IN_REQUEST"
code_symbol (some (nonzero deserialize_failed_insufficient_segments)) =
    "DESERIALIZE_FAILED_INSUFFICIENT_SEGMENTS"
code_symbol (some (nonzero deserialize_failed_segment_misaligned)) =
    "DESERIALIZE_FAILED_SEGMENT_MISALIGNED"
code_symbol none = "END_SENTINEL"

-- `S_CODE_LOWEST_INT_VALUE`. The first enumerator does not take its value from it.
abbrev pub lowest_int : ℕ
lowest_int = 1

abbrev pub sentinel_int : ℕ
sentinel_int = 12

-- The number of an enumerator: they follow one another from zero to the sentinel.
unfoldable pub int_of : Code → ℕ
int_of mismatch_got_no_hndl = 0
int_of (nonzero mismatch_got_no_blob) = 1
int_of (nonzero mismatch_got_hndl) = 2
int_of (nonzero misused_schema) = 3
int_of (nonzero serialize_leaf_too_big) = 4
int_of (nonzero deserialize_target_alloc_failed) = 5
int_of (nonzero log_in_misused_schema) = 6
int_of (nonzero bad_auth) = 7
int_of (nonzero internal_msg_type_unknown) = 8
int_of (nonzero got_unexpected_log_in_request) = 9
int_of (nonzero deserialize_failed_insufficient_segments) = 10
int_of (nonzero deserialize_failed_segment_misaligned) = 11

abbrev in_order : List Code
in_order =
    mismatch_got_no_hndl
    ∷ nonzero mismatch_got_no_blob
    ∷ nonzero mismatch_got_hndl
    ∷ nonzero misused_schema
    ∷ nonzero serialize_leaf_too_big
    ∷ nonzero deserialize_target_alloc_failed
    ∷ nonzero log_in_misused_schema
    ∷ nonzero bad_auth
    ∷ nonzero internal_msg_type_unknown
    ∷ nonzero got_unexpected_log_in_request
    ∷ nonzero deserialize_failed_insufficient_segments
    ∷ nonzero deserialize_failed_segment_misaligned
    ∷ []

abbrev nth : List Code → ℕ → Option Code
nth [] n = none
nth (c ∷ cs) zero = some c
nth (c ∷ cs) (suc n) = nth cs n

-- `static_cast<Code>`; outside the enumerators it stands for the sentinel.
unfoldable pub cast : ℕ → Option Code
cast n = nth in_order n

unfoldable pub symbol_of_int : ℕ → String
symbol_of_int n = code_symbol (cast n)

abbrev lower_case : ℕ → ℕ
lower_case c = if ltb 64 c && ltb c 91 then c + 32 else c

-- A text without regard to case.
unfoldable pub folded : String → List ℕ
folded s = map lower_case (codes s)

-- Whether a token can be a number.
unfoldable pub starts_with_digit : String → Bool
starts_with_digit s = elim (codes s) [ [] ↦ false | c ∷ cs ↦ ltb 47 c && ltb c 58 ]

-- `flow::util::istream_to_enum`, given the printed enumerators, the lowest number, the sentinel, which
-- is the default too, and a token. Its documentation: it finds the enumerator, from the lowest to below
-- the sentinel, that is printed as the token, without regard to case; no two may be printed alike, and
-- none as a number. If a token that is no number is none of them, it yields the default.
pub record IstreamToEnum : Type 0 where
  pub read : (ℕ → String) → ℕ → ℕ → String → ℕ
  pub finds :
      (printed : ℕ → String) (lowest sentinel i : ℕ)
      → lowest ≤ i
      → i < sentinel
      → starts_with_digit (printed i) ≡ false
      → ((j : ℕ) → lowest ≤ j → j < sentinel → folded (printed j) ≡ folded (printed i) → j ≡ i)
      → read printed lowest sentinel (printed i) ≡ i
  pub misses :
      (printed : ℕ → String) (lowest sentinel : ℕ) (token : String)
      → starts_with_digit token ≡ false
      → ((j : ℕ) → lowest ≤ j → j < sentinel → folded (printed j) ≢ folded token)
      → read printed lowest sentinel token ≡ sentinel

-- `operator<<` and `operator>>`.
unfoldable pub to_ostream : Code → String
to_ostream c = code_symbol (some c)

unfoldable pub from_istream : IstreamToEnum → String → Option Code
from_istream io token = cast (io.read symbol_of_int lowest_int sentinel_int token)
