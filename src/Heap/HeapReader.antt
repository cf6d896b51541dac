-- ===== src/Heap/HeapReader.antt =====
-- The reader: `Heap_reader`.
use ipc_transport_structured.Prelude.{
  ℕ, zero, suc, ◌*◌, ◌/◌, ◌%◌, Bool, false, not, ◌||◌, List, [], ◌∷◌, ◌++◌, map, ◌==◌, length,
  is_empty, if◌then◌else◌,
}
use ipc_transport_structured.Error.{
  struc, deserialize_failed_insufficient_segments, deserialize_failed_segment_misaligned, Result,
  ok, err,
}
use ipc_transport_structured.Msg.MsgIn.{Payload}
use ipc_transport_structured.Heap.Builder.{word_sz, zeroes}

-- A segment: where its data begins, and its bytes.
pub record Segment : Type 0 where
  pub data_ptr : ℕ
  pub bytes : Payload

-- `m_serialization_segments`.
abbrev pub HeapReader : Type 0
HeapReader = List Segment

-- The heap's answer to the allocation is the address.
unfoldable pub add_serialization_segment : ℕ → ℕ → HeapReader → HeapReader
add_serialization_segment data_ptr max_sz r =
    r ++ record { data_ptr = data_ptr; bytes = zeroes max_sz } ∷ []

abbrev pub take : ℕ → Payload → Payload
take zero p = []
take (suc n) [] = []
take (suc n) (x ∷ p) = x ∷ take n p

-- What capnp is given of a segment: the whole words.
abbrev pub whole_words : Segment → Payload
whole_words seg = take (length seg.bytes / word_sz * word_sz) seg.bytes

-- `sizeof(void*)` is 8.
unfoldable pub misaligned : HeapReader → Bool
misaligned [] = false
misaligned (seg ∷ segs) = not (seg.data_ptr % 8 == 0) || misaligned segs

-- `get_root` is what capnp makes of the segments.
unfoldable pub deserialization {ℓ} :
    {Struct : Type ℓ} → (List Payload → Struct) → HeapReader → Result Struct
deserialization get_root r =
    if is_empty r
    then err (struc deserialize_failed_insufficient_segments)
    else if misaligned r
    then err (struc deserialize_failed_segment_misaligned)
    else ok (get_root (map whole_words r))
