-- ===== src/Heap.antt =====
-- heap_serializer.hpp, heap_serializer.cpp and detail/heap_fixed_builder_capnp_msg_builder.cpp: the
-- builder and the reader of serializations that live in the heap.
pub mod Builder
pub mod HeapReader
pub mod Sizes
pub mod Config
mod Tests
