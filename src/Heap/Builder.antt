-- ===== src/Heap/Builder.antt =====
-- The builder: `Heap_fixed_builder_capnp_message_builder` and `Heap_fixed_builder`.
use ipc_transport_structured.Prelude.{
  ℕ, zero, suc, ◌+◌, ◌*◌, ◌/◌, max, Bool, false, ◌||◌, Option, some, List, [], ◌∷◌, ◌++◌, ltb,
  length, if◌then◌else◌,
}
use ipc_transport_structured.Error.{ErrorCode, struc, serialize_leaf_too_big}
use ipc_transport_structured.Msg.MsgIn.{Payload}

-- A `Blob`: the size of its buffer, where its contents start, and the contents.
pub record Blob : Type 0 where
  pub capacity : ℕ
  pub start : ℕ
  pub bytes : Payload

-- The capnp message builder; the engine of capnp, to which it gives out areas, writes into them.
pub record CapnpMessageBuilder : Type 0 where
  pub segment_sz : ℕ
  pub frame_prefix_sz : ℕ
  pub frame_postfix_sz : ℕ
  pub serialization_segments_plus_frame_space : List Blob

abbrev pub word_sz : ℕ
word_sz = 8

abbrev pub zeroes : ℕ → Payload
zeroes zero = []
zeroes (suc n) = 0 ∷ zeroes n

-- `seg_sz` of `allocateSegment`.
unfoldable pub seg_sz : ℕ → ℕ → ℕ
seg_sz min_sz segment_sz = max (min_sz * word_sz) (segment_sz / word_sz * word_sz)

-- The area given to capnp is the contents of the new blob, which comes last.
unfoldable pub allocate_segment : ℕ → CapnpMessageBuilder → CapnpMessageBuilder
allocate_segment min_sz b =
    let sz = seg_sz min_sz b.segment_sz in
    let blob : Blob = record {
      capacity = b.frame_prefix_sz + sz + b.frame_postfix_sz;
      start = b.frame_prefix_sz;
      bytes = zeroes sz;
    } in
    record b {
      serialization_segments_plus_frame_space =
          b.serialization_segments_plus_frame_space ++ blob ∷ [];
    }

unfoldable pub n_segments : CapnpMessageBuilder → ℕ
n_segments b = length b.serialization_segments_plus_frame_space

-- `blob.resize(seg_sz)` for each segment; `capnp_segs` is what `getSegmentsForOutput()` yields, which
-- lies at the starts of the areas.
unfoldable pub resize_all : List Payload → List Blob → List Blob
resize_all [] blobs = blobs
resize_all (seg ∷ segs) [] = []
resize_all (seg ∷ segs) (blob ∷ blobs) = record blob { bytes = seg } ∷ resize_all segs blobs

-- The second part is `*target_blob_ptrs_ptr`, the blobs that the pointers lead to.
unfoldable pub emit_segment_blobs :
    List Payload → List Blob → CapnpMessageBuilder → CapnpMessageBuilder × List Blob
emit_segment_blobs capnp_segs target b =
    let blobs = resize_all capnp_segs b.serialization_segments_plus_frame_space in
    (record b { serialization_segments_plus_frame_space = blobs }, target ++ blobs)

pub record HeapFixedBuilder : Type 0 where
  pub segment_sz : ℕ
  pub engine : CapnpMessageBuilder

-- The constructor.
unfoldable pub new_heap_fixed_builder : ℕ → ℕ → ℕ → HeapFixedBuilder
new_heap_fixed_builder sz prefix postfix = record {
  segment_sz = sz;
  engine = record {
    segment_sz = sz;
    frame_prefix_sz = prefix;
    frame_postfix_sz = postfix;
    serialization_segments_plus_frame_space = [];
  };
}

-- Whether the loop over the appended blobs meets one that is too large.
unfoldable pub leaf_too_big : ℕ → List Blob → Bool
leaf_too_big limit [] = false
leaf_too_big limit (blob ∷ blobs) = ltb limit (length blob.bytes) || leaf_too_big limit blobs

pub record Emitted : Type 0 where
  pub builder : HeapFixedBuilder
  pub target_blobs : List Blob
  pub err_code : Option ErrorCode

-- `*err_code` comes in with the caller's value; the blobs are appended on every path.
unfoldable pub emit_serialization :
    List Payload → List Blob → Option ErrorCode → HeapFixedBuilder → Emitted
emit_serialization capnp_segs target err_code b =
    let (engine, target') = emit_segment_blobs capnp_segs target b.engine in
    record {
      builder = record b { engine = engine };
      target_blobs = target';
      err_code =
          if leaf_too_big b.segment_sz
            (resize_all capnp_segs b.engine.serialization_segments_plus_frame_space)
          then some (struc serialize_leaf_too_big)
          else err_code;
    }

unfoldable pub n_serialization_segments : HeapFixedBuilder → ℕ
n_serialization_segments b = n_segments b.engine
