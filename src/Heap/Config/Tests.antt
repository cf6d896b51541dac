-- ===== src/Heap/Config/Tests.antt =====
-- A channel of two pipes whose messages the heap builder makes, with limits of 32 and 24 bytes.
use ipc_transport_structured.Prelude.{
  ℕ, ◌≡◌, refl, true, false, some, none, List, [], ◌∷◌, ◌++◌, arith, All, map,
}
use ipc_transport_structured.Error.{Result, ok, err}
use ipc_transport_structured.Msg.Mdt.{StructuredMessage}
use ipc_transport_structured.Msg.MsgIn.{Payload}
use ipc_transport_structured.Chan.State.{two_pipes, MsgOut, Sent, blob, Env, Chan}
use ipc_transport_structured.Chan.Init.{new_logged_in}
use ipc_transport_structured.Chan.Send.{
  send_core, conclude_send, serialize, send_payloads, by_pipes, send_blobs,
}
use ipc_transport_structured.Chan.Tests.{env_over, token, user_mdt}
use ipc_transport_structured.Heap.Builder.{
  seg_sz, allocate_segment, resize_all, emit_segment_blobs, leaf_too_big, new_heap_fixed_builder,
  emit_serialization,
}
use ipc_transport_structured.Heap.Config.{BuilderConfig, heap_fixed_builder_config, emit}
use ipc_transport_structured.Heap.Config.Fits.{Fits, Built, send_core-Fits}

abbrev cfg : BuilderConfig
cfg = heap_fixed_builder_config two_pipes 32 24

-- One word is asked for at a time.
abbrev areas : List Payload → List ℕ
areas ps = map (λ p. 1) ps

abbrev mdt_segment : StructuredMessage → Payload
mdt_segment mdt = mdt.id ∷ []

abbrev one_segment : Result (List Payload) → Result Payload
one_segment (ok (p ∷ ps)) = ok p
one_segment (ok []) = ok []
one_segment (err e) = err e

abbrev env : Env
env = record (env_over two_pipes (λ sent x. none)) {
  emit_mdt = λ mdt. one_segment (emit cfg (areas (mdt_segment mdt ∷ [])) (mdt_segment mdt ∷ []));
  emit_body = λ segs. emit cfg (areas segs) segs;
}

abbrev mdt : StructuredMessage
mdt = user_mdt 1 none 2

abbrev msg : MsgOut
msg = record { segments = (1 ∷ 2 ∷ []) ∷ (3 ∷ []) ∷ []; hndl_or_null = none }

mdt-Built : (p : Payload) → env.emit_mdt mdt ≡ ok p → Built cfg (p ∷ [])
unfolding emit emit_serialization emit_segment_blobs allocate_segment resize_all leaf_too_big
    heap_fixed_builder_config new_heap_fixed_builder seg_sz
mdt-Built p e = record {
  areas = 1 ∷ [];
  segs = mdt_segment mdt ∷ [];
  kept = omega arith;
  emitted = ground (arith, e);
}

body_Built : (ps : List Payload) → env.emit_body msg.segments ≡ ok ps → Built cfg ps
unfolding seg_sz heap_fixed_builder_config
body_Built ps e = record {
  areas = areas msg.segments;
  segs = msg.segments;
  kept = omega arith;
  emitted = e;
}

abbrev up : Chan
up = record (new_logged_in token) { started_ops = true }

send_core-Fits_example :
    (xs : List Sent) × ((send_core env mdt (some msg) false up).chan.sent ≡ up.sent ++ xs)
    × All (Fits 32 24) xs
send_core-Fits_example = send_core-Fits 32 24 env mdt msg false up mdt-Built body_Built

-- Both segments go out, as none is larger than the limit.
what_is_sent :
    (send_core env mdt (some msg) false up).chan.sent
    ≡ blob (1 ∷ []) ∷ blob (1 ∷ 2 ∷ []) ∷ blob (3 ∷ []) ∷ []
unfolding send_core serialize send_payloads by_pipes send_blobs conclude_send new_logged_in emit
    emit_serialization emit_segment_blobs allocate_segment resize_all leaf_too_big
    heap_fixed_builder_config new_heap_fixed_builder seg_sz
what_is_sent = refl
