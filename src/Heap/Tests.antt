-- ===== src/Heap/Tests.antt =====
-- A builder with a limit of 20 bytes, and segments that are read back.
use ipc_transport_structured.Prelude.{
  ℕ, ◌*◌, ◌%◌, ◌≤◌, ◌≡◌, ◌↔◌, ◌⊎◌, max, refl, none, List, [], ◌∷◌, ◌++◌, map, arith, length, All,
}
use ipc_transport_structured.Error.{
  struc, deserialize_failed_insufficient_segments, deserialize_failed_segment_misaligned, ok, err,
}
use ipc_transport_structured.Msg.MsgIn.{Payload}
use ipc_transport_structured.Heap.Builder.{
  seg_sz, emit_serialization, emit_segment_blobs, resize_all, new_heap_fixed_builder,
  allocate_segment,
}
use ipc_transport_structured.Heap.HeapReader.{Segment, HeapReader, misaligned, deserialization}
use ipc_transport_structured.Heap.Sizes.{
  IsAmiss, seg_sz_fits, Written, used, bytes_of, emit_serialization-Written, seg_bytes, IsWhole,
  emit_serialization-fits, deserialization-emit_serialization, deserialization-err,
}

seg_sz_fits_example : (2 * 8 ≤ seg_sz 2 20) × (seg_sz 2 20 % 8 ≡ 0) × (seg_sz 2 20 ≤ max (2 * 8) 20)
seg_sz_fits_example = seg_sz_fits 2 20

-- Two areas, of 16 and of 40 bytes; the second is filled beyond the limit.
abbrev areas : List ℕ
areas = 1 ∷ 5 ∷ []

abbrev written : List Payload
written = (1 ∷ 2 ∷ []) ∷ (3 ∷ []) ∷ []

written-Written : Written 20 areas written
unfolding seg_sz
written-Written = (omega arith, (omega arith, tt))

emit_serialization-Written_example :
    let r = emit_serialization written [] none (used 20 0 0 areas) in
    (map bytes_of r.target_blobs ≡ map bytes_of [] ++ written)
    × ((r.err_code ≡ none) ↔ All (λ p. length p ≤ 20) written)
emit_serialization-Written_example =
    emit_serialization-Written 20 0 0 areas written [] written-Written

abbrev aligned_segment : Segment
aligned_segment = record { data_ptr = 64; bytes = 1 ∷ 2 ∷ 3 ∷ 4 ∷ 5 ∷ 6 ∷ 7 ∷ 8 ∷ [] }

one-Written : Written 20 (2 ∷ []) ((1 ∷ []) ∷ [])
unfolding seg_sz
one-Written = (omega arith, tt)

word-Written : Written 20 (1 ∷ []) (aligned_segment.bytes ∷ [])
unfolding seg_sz
word-Written = (omega arith, tt)

aligned-IsWhole : IsWhole aligned_segment
aligned-IsWhole = record { words = omega arith; aligned = omega arith }

word-emitted :
    map seg_bytes (aligned_segment ∷ [])
    ≡ map bytes_of
        (emit_serialization
          (aligned_segment.bytes ∷ [])
          []
          none
          (used 20 0 0 (1 ∷ []))).target_blobs
unfolding emit_serialization emit_segment_blobs resize_all new_heap_fixed_builder allocate_segment
word-emitted = refl

emit_serialization-fits_example :
    (emit_serialization ((1 ∷ []) ∷ []) [] none (used 20 0 0 (2 ∷ []))).err_code ≡ none
emit_serialization-fits_example =
    emit_serialization-fits 20 0 0 (2 ∷ []) ((1 ∷ []) ∷ []) [] one-Written (omega arith, tt)

deserialization-emit_serialization_example :
    deserialization (λ ps. ps) (aligned_segment ∷ []) ≡ ok (aligned_segment.bytes ∷ [])
deserialization-emit_serialization_example =
    deserialization-emit_serialization (λ ps. ps) 20 0 0 (1 ∷ []) (aligned_segment.bytes ∷ [])
      (aligned_segment ∷ []) word-Written word-emitted (λ e. cc) (aligned-IsWhole, tt)

-- The second of two segments is misaligned.
abbrev amiss : HeapReader
amiss = aligned_segment ∷ record aligned_segment { data_ptr = 12 } ∷ []

deserialization-err_example :
    let e = struc deserialize_failed_segment_misaligned in
    (deserialization (λ ps. ps) amiss ≡ err e) ↔ (
      ((amiss ≡ []) × (e ≡ struc deserialize_failed_insufficient_segments))
      ⊎ (IsAmiss amiss × (e ≡ struc deserialize_failed_segment_misaligned)))
deserialization-err_example =
    deserialization-err (λ ps. ps) amiss (struc deserialize_failed_segment_misaligned)

amiss_fails : deserialization (λ ps. ps) amiss ≡ err (struc deserialize_failed_segment_misaligned)
unfolding deserialization misaligned
amiss_fails = refl
