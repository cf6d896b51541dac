-- ===== src/Heap/Sizes.antt =====
-- The sizes of segments: what the builder gives out, when it refuses, and that the reader's side gets
-- back what was written.
use mathlib.Core.List.{map-append}
use ipc_transport_structured.Prelude.{
  Bool-cases, ◌==◌, ℕ, zero, suc, ◌+◌, ◌*◌, ◌/◌, ◌%◌, ◌≤◌, ◌≡◌, ◌≢◌, ◌↔◌, ◌⊎◌, inl, inr, max, refl,
  ap, ap₂, ◌∙◌, true, false, none, List, [], ◌∷◌, ◌++◌, map, arith, length, length-append, All,
}
use ipc_transport_structured.Error.{
  ErrorCode, struc, deserialize_failed_insufficient_segments, deserialize_failed_segment_misaligned,
  ok, err,
}
use ipc_transport_structured.Msg.MsgIn.{Payload}
use ipc_transport_structured.Heap.Builder.{
  Blob, CapnpMessageBuilder, zeroes, seg_sz, allocate_segment, resize_all, emit_segment_blobs,
  HeapFixedBuilder, new_heap_fixed_builder, leaf_too_big, emit_serialization,
}
use ipc_transport_structured.Heap.HeapReader.{
  Segment, HeapReader, take, whole_words, misaligned, deserialization,
}

-- The area for `min_sz` words holds them, is whole words, and goes beyond the limit on segments only
-- as far as those words need.
pub seg_sz_fits :
    (min_sz limit : ℕ)
    → (min_sz * 8 ≤ seg_sz min_sz limit)
      × (seg_sz min_sz limit % 8 ≡ 0)
      × (seg_sz min_sz limit ≤ max (min_sz * 8) limit)
unfolding seg_sz
seg_sz_fits min_sz limit = (omega arith, omega arith, omega arith)

-- The areas asked for, one after another.
abbrev pub allocate_all : List ℕ → CapnpMessageBuilder → CapnpMessageBuilder
allocate_all [] b = b
allocate_all (n ∷ ns) b = allocate_all ns (allocate_segment n b)

length-zeroes : (n : ℕ) → length (zeroes n) ≡ n
length-zeroes zero = refl
length-zeroes (suc n) = ap suc (length-zeroes n)

-- The segments that capnp wrote into the areas asked for with `mins`, one in each.
abbrev pub Written : ℕ → List ℕ → List Payload → Type 0
Written limit [] [] = Unit
Written limit (n ∷ ns) (p ∷ ps) = (length p ≤ seg_sz n limit) × Written limit ns ps
Written limit _ _ = ⊥

allocate_all-blobs :
    (ns : List ℕ) (b : CapnpMessageBuilder)
    → (length (allocate_all ns b).serialization_segments_plus_frame_space
        ≡ length b.serialization_segments_plus_frame_space + length ns)
      × ((allocate_all ns b).segment_sz ≡ b.segment_sz)
unfolding allocate_segment
allocate_all-blobs [] b = (omega arith, refl)
allocate_all-blobs (n ∷ ns) b =
    let rest = allocate_all-blobs ns (allocate_segment n b) in
    let blob : Blob = record {
      capacity = b.frame_prefix_sz + seg_sz n b.segment_sz + b.frame_postfix_sz;
      start = b.frame_prefix_sz;
      bytes = zeroes (seg_sz n b.segment_sz);
    } in
    let more = length-append b.serialization_segments_plus_frame_space (blob ∷ []) in
    (omega (arith, rest.0, more), rest.1)

length-Written :
    (limit : ℕ) (ns : List ℕ) (ps : List Payload) → Written limit ns ps → length ns ≡ length ps
length-Written limit [] [] w = refl
length-Written limit [] (p ∷ ps) w = absurd w
length-Written limit (n ∷ ns) [] w = absurd w
length-Written limit (n ∷ ns) (p ∷ ps) w = ap suc (length-Written limit ns ps w.1)

abbrev pub bytes_of : Blob → Payload
bytes_of b = b.bytes

-- As many blobs as segments take the segments' bytes.
resize_all-bytes :
    (ps : List Payload) (bs : List Blob)
    → length bs ≡ length ps
    → map bytes_of (resize_all ps bs) ≡ ps
unfolding resize_all
resize_all-bytes [] [] e = refl
resize_all-bytes [] (b ∷ bs) e = absurd (omega (arith, e))
resize_all-bytes (p ∷ ps) [] e = absurd (omega (arith, e))
resize_all-bytes (p ∷ ps) (b ∷ bs) e = ap (λ qs. p ∷ qs) (resize_all-bytes ps bs (omega (arith, e)))

leaf_too_big-none :
    (limit : ℕ) (bs : List Blob)
    → leaf_too_big limit bs ≡ false
    → All (λ p. length p ≤ limit) (map bytes_of bs)
unfolding leaf_too_big
leaf_too_big-none limit [] h = tt
leaf_too_big-none limit (b ∷ bs) h = (ground arith, leaf_too_big-none limit bs (ground arith))

none-leaf_too_big :
    (limit : ℕ) (bs : List Blob)
    → All (λ p. length p ≤ limit) (map bytes_of bs)
    → leaf_too_big limit bs ≡ false
unfolding leaf_too_big
none-leaf_too_big limit [] h = refl
none-leaf_too_big limit (b ∷ bs) h = ground (arith, h.0, none-leaf_too_big limit bs h.1)

Written-small :
    (limit : ℕ) (ns : List ℕ) (ps : List Payload)
    → Written limit ns ps
    → All (λ n. n * 8 ≤ limit) ns
    → All (λ p. length p ≤ limit) ps
Written-small limit [] [] w h = tt
Written-small limit [] (p ∷ ps) w h = absurd w
Written-small limit (n ∷ ns) [] w h = absurd w
Written-small limit (n ∷ ns) (p ∷ ps) w h =
    (omega (arith, w.0, (seg_sz_fits n limit).2, h.0), Written-small limit ns ps w.1 h.1)

-- The builder after capnp has asked for the areas.
abbrev pub used : ℕ → ℕ → ℕ → List ℕ → HeapFixedBuilder
used limit prefix postfix ns =
    let b = new_heap_fixed_builder limit prefix postfix in
    record b { engine = allocate_all ns b.engine }

module _ (limit prefix postfix : ℕ) (ns : List ℕ) (ps : List Payload) (target : List Blob)
    (w : Written limit ns ps) where
  abbrev blobs : List Blob
  blobs =
      resize_all ps (used limit prefix postfix ns).engine.serialization_segments_plus_frame_space

  blobs-bytes : map bytes_of blobs ≡ ps
  unfolding new_heap_fixed_builder
  blobs-bytes =
      let many = allocate_all-blobs ns (new_heap_fixed_builder limit prefix postfix).engine in
      resize_all-bytes ps _ (omega (arith, many.0, length-Written limit ns ps w))

  small :
      All (λ p. length p ≤ limit) ps
      → (emit_serialization ps target none (used limit prefix postfix ns)).err_code ≡ none
  unfolding emit_serialization emit_segment_blobs new_heap_fixed_builder
  small h = ground (arith, none-leaf_too_big limit blobs (rw blobs-bytes h))

  -- The serialization appends the segments in order to the target, and it is refused exactly when a
  -- segment is larger than the limit.
  pub emit_serialization-Written :
      let r = emit_serialization ps target none (used limit prefix postfix ns) in
      (map bytes_of r.target_blobs ≡ map bytes_of target ++ ps)
      × ((r.err_code ≡ none) ↔ All (λ p. length p ≤ limit) ps)
  unfolding emit_serialization emit_segment_blobs new_heap_fixed_builder
  emit_serialization-Written = (
    map-append bytes_of target blobs ∙ ap (λ qs. map bytes_of target ++ qs) blobs-bytes,
    ((λ e. rw blobs-bytes at (leaf_too_big-none limit blobs (ground arith))), small),
  )

  -- If no leaf asks for more than the limit on segments, the serialization is not refused.
  pub emit_serialization-fits :
      All (λ n. n * 8 ≤ limit) ns
      → (emit_serialization ps target none (used limit prefix postfix ns)).err_code ≡ none
  emit_serialization-fits h = small (Written-small limit ns ps w h)

-- Segments that are whole words, read back where they are aligned, are what capnp is given.
take_all : (p : Payload) → take (length p) p ≡ p
take_all [] = refl
take_all (x ∷ p) = ap (λ q. x ∷ q) (take_all p)

pub record IsWhole (seg : Segment) : Type 0 where
  pub words : length seg.bytes % 8 ≡ 0
  pub aligned : seg.data_ptr % 8 ≡ 0

abbrev pub seg_bytes : Segment → Payload
seg_bytes seg = seg.bytes

whole-bytes : (r : HeapReader) → All IsWhole r → map whole_words r ≡ map seg_bytes r
whole-bytes [] h = refl
whole-bytes (seg ∷ r) h =
    let n : length seg.bytes / 8 * 8 ≡ length seg.bytes = omega (arith, h.0.words) in
    ap₂ ◌∷◌ (ap (λ k. take k seg.bytes) n ∙ take_all seg.bytes) (whole-bytes r h.1)

aligned-All : (r : HeapReader) → All IsWhole r → misaligned r ≡ false
unfolding misaligned
aligned-All [] h = refl
aligned-All (seg ∷ r) h = ground (arith, h.0.aligned, aligned-All r h.1)

deserialization-whole {ℓ} :
    {Struct : Type ℓ} (get_root : List Payload → Struct) (r : HeapReader)
    → r ≢ []
    → All IsWhole r
    → deserialization get_root r ≡ ok (get_root (map seg_bytes r))
unfolding deserialization
deserialization-whole get_root [] n h = absurd (n refl)
deserialization-whole get_root (seg ∷ r) n h =
    rw (aligned-All (seg ∷ r) h) (ap (λ ps. ok (get_root ps)) (whole-bytes (seg ∷ r) h))

-- A serialization that the builder emitted is read back: where its segments, at least one, arrive as
-- whole words in aligned buffers, the reader hands to capnp what capnp wrote, segment by segment.
pub deserialization-emit_serialization {ℓ} :
    {Struct : Type ℓ} (get_root : List Payload → Struct) (limit prefix postfix : ℕ) (ns : List ℕ)
    (ps : List Payload) (r : HeapReader)
    → Written limit ns ps
    → map seg_bytes r
      ≡ map bytes_of (emit_serialization ps [] none (used limit prefix postfix ns)).target_blobs
    → r ≢ []
    → All IsWhole r
    → deserialization get_root r ≡ ok (get_root ps)
deserialization-emit_serialization get_root limit prefix postfix ns ps r w e n h =
    deserialization-whole get_root r n h
    ∙ ap (λ qs. ok (get_root qs))
        (e ∙ (emit_serialization-Written limit prefix postfix ns ps [] w).0)

-- A reader that has `seg` among its segments, misaligned.
abbrev pub IsAmiss : HeapReader → Type 0
IsAmiss r =
    (before : HeapReader) × (seg : Segment) × (after : HeapReader) × (r ≡ before ++ seg ∷ after)
    × (seg.data_ptr % 8 ≢ 0)

misaligned-IsAmiss : (r : HeapReader) → misaligned r ≡ true → IsAmiss r
unfolding misaligned
misaligned-IsAmiss [] h = absurd (cc)
misaligned-IsAmiss (seg ∷ r) h = elim (Bool-cases (seg.data_ptr % 8 == 0)) [
  | inl q ↦
      let (before, bad, after, e, n) = misaligned-IsAmiss r (ground (arith, h, q)) in
      (seg ∷ before, bad, after, ap (λ xs. seg ∷ xs) e, n)
  | inr q ↦ ([], seg, r, refl, λ z. ground (arith, q, z))
]

among-misaligned :
    (before after : HeapReader) (seg : Segment)
    → seg.data_ptr % 8 ≢ 0
    → misaligned (before ++ seg ∷ after) ≡ true
unfolding misaligned
among-misaligned [] after seg n = ground (arith, n)
among-misaligned (x ∷ before) after seg n = ground (arith, among-misaligned before after seg n)

IsAmiss-misaligned : (r : HeapReader) → IsAmiss r → misaligned r ≡ true
IsAmiss-misaligned r (before, seg, after, e, n) =
    ap misaligned e ∙ among-misaligned before after seg n

nothing-IsAmiss : ¬ IsAmiss []
unfolding misaligned
nothing-IsAmiss bad = cc (IsAmiss-misaligned [] bad)

-- The reader fails exactly when it has no segment, or when some segment, wherever it stands, begins at
-- an address that is no multiple of eight, and with the error that names which.
pub deserialization-err {ℓ} :
    {Struct : Type ℓ} (get_root : List Payload → Struct) (r : HeapReader) (e : ErrorCode)
    → (deserialization get_root r ≡ err e) ↔ (
        ((r ≡ []) × (e ≡ struc deserialize_failed_insufficient_segments))
        ⊎ (IsAmiss r × (e ≡ struc deserialize_failed_segment_misaligned)))
unfolding deserialization
deserialization-err get_root [] e = (
  (λ h. inl (refl, ground arith)),
  (λ h. elim h [ inl (n, c) ↦ ground arith | inr (bad, c) ↦ absurd (nothing-IsAmiss bad) ]),
)
deserialization-err get_root (seg ∷ r) e =
    let code = struc deserialize_failed_segment_misaligned in
    elim (Bool-cases (misaligned (seg ∷ r))) [
      | inl m ↦ (
        (λ h. inr (misaligned-IsAmiss (seg ∷ r) m, ground (arith, h, m))),
        (λ h. elim h [ inl (n, c) ↦ absurd (cc) | inr (bad, c) ↦ ground (arith, c, m) ]),
      )
      | inr m ↦ (
        (λ h. absurd (ground (arith, h, m))),
        (λ h. elim h [
          | inl (n, c) ↦ absurd (cc)
          | inr (bad, c) ↦ absurd (ground (arith, IsAmiss-misaligned (seg ∷ r) bad, m))
        ]),
      )
    ]
