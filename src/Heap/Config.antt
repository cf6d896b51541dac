-- ===== src/Heap/Config.antt =====
-- channel.hpp: the configurations of the heap serializer that suit a channel, from
-- heap_fixed_builder_config and heap_reader_config; and what a builder so configured emits.
pub mod Fits
mod Tests
use ipc_transport_structured.Prelude.{ℕ, min, Option, none, some, List, [], map}
use ipc_transport_structured.Error.{Result, ok, err}
use ipc_transport_structured.Msg.MsgIn.{Payload}
use ipc_transport_structured.Chan.State.{Pipes, blob_pipe_only, native_handle_pipe_only, two_pipes}
use ipc_transport_structured.Heap.Builder.{emit_serialization}
use ipc_transport_structured.Heap.Sizes.{used, bytes_of}

-- `Heap_fixed_builder::Config` and `Heap_reader::Config`, without their loggers.
pub record BuilderConfig : Type 0 where
  pub segment_sz : ℕ
  pub frame_prefix_sz : ℕ
  pub frame_postfix_sz : ℕ

pub record ReaderConfig : Type 0 where
  pub n_segments_est : ℕ

abbrev config : ℕ → BuilderConfig
config sz = record { segment_sz = sz; frame_prefix_sz = 0; frame_postfix_sz = 0 }

-- Given `send_blob_max_size()` and `send_meta_blob_max_size()` of the owned channel.
unfoldable pub heap_fixed_builder_config : Pipes → ℕ → ℕ → BuilderConfig
heap_fixed_builder_config blob_pipe_only blob_max meta_blob_max = config blob_max
heap_fixed_builder_config native_handle_pipe_only blob_max meta_blob_max = config meta_blob_max
heap_fixed_builder_config two_pipes blob_max meta_blob_max = config (min meta_blob_max blob_max)

unfoldable pub heap_reader_config : ReaderConfig
heap_reader_config = record { n_segments_est = 0 }

-- What a builder of the configuration emits when capnp has asked it for areas and has written its
-- segments into them.
unfoldable pub emit : BuilderConfig → List ℕ → List Payload → Result (List Payload)
emit cfg areas segs =
    let r =
      emit_serialization segs [] none
        (used cfg.segment_sz cfg.frame_prefix_sz cfg.frame_postfix_sz areas) in
    elim r.err_code [ none ↦ ok (map bytes_of r.target_blobs) | some e ↦ err e ]
