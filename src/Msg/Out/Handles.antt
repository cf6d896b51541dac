-- ===== src/Msg/Out/Handles.antt =====
-- The handles that an out-message was given, and those that it returned to the OS.
use mathlib.Core.List.{append-nil, append_assoc}
use ipc_transport_structured.Prelude.{
  ℕ, ◌≡◌, ◌∙◌, false, Option, List, [], ◌∷◌, ◌++◌, arith, map, ◌&&◌, is_some,
}
use ipc_transport_structured.Msg.Out.{
  MsgOut, new_blank, same_handle, handles, store_native_handle_or_null, move_assign, destroy,
}

-- What the user does with one message: a call of `store_native_handle_or_null`, or an assignment of
-- another message, which is destroyed afterwards.
pub data Change : Type 0 where
  stores : Option ℕ → Change
  takes : MsgOut → Change

abbrev pub given : Change → Option ℕ
given (stores hndl) = hndl
given (takes src) = src.hndl_or_null

unfoldable pub change : Change → MsgOut → List ℕ → MsgOut × List ℕ
change (stores hndl) m os = let (m', arg, os') = store_native_handle_or_null hndl m os in (m', os')
change (takes src) m os = let (m', src', os') = move_assign m src os in (m', destroy src' os')

-- The life of a message to its end, with all that it returned to the OS.
unfoldable pub live : List Change → MsgOut → List ℕ → List ℕ
live [] m os = destroy m os
live (c ∷ cs) m os = let (m', os') = change c m os in live cs m' os'

-- No two handles in a row are the same.
abbrev pub NoRepeat : Option ℕ → List Change → Type 0
NoRepeat last [] = Unit {0}
NoRepeat last (c ∷ cs) =
    (is_some last && same_handle (given c) last ≡ false) × NoRepeat (given c) cs

abbrev pub all_handles : List (Option ℕ) → List ℕ
all_handles [] = []
all_handles (h ∷ hs) = handles h ++ all_handles hs

-- A change that brings another handle returns the one that was there, and keeps the new one.
change-returns :
    (c : Change) (m : MsgOut) (os : List ℕ)
    → is_some m.hndl_or_null && same_handle (given c) m.hndl_or_null ≡ false
    → ((change c m os).0.hndl_or_null ≡ given c)
      × ((change c m os).1 ≡ os ++ handles m.hndl_or_null)
unfolding change store_native_handle_or_null move_assign destroy new_blank
change-returns (stores hndl) m os n = ground (arith, n, append-nil os)
change-returns (takes src) m os n = ground (arith, n, append-nil os)

-- The handles that a message was given in its life, be it by `store_native_handle_or_null` or by
-- assignments of messages that are destroyed then, and the one that it began with, are all returned
-- to the OS by its end, each once and in the order in which they came, if none was given twice in a
-- row.
pub live-all_handles :
    (cs : List Change) (m : MsgOut) (os : List ℕ)
    → NoRepeat m.hndl_or_null cs
    → live cs m os ≡ os ++ all_handles (m.hndl_or_null ∷ map given cs)
unfolding live destroy store_native_handle_or_null
live-all_handles [] m os n = ground (arith, append-nil os)
live-all_handles (c ∷ cs) m os n =
    let (kept, returned) = change-returns c m os n.0 in
    let rest = all_handles (map given cs) in
    let (m', os') = change c m os in
    live-all_handles cs m' os' (rw kept n.1)
    ∙ rw kept (rw returned (append_assoc os (handles m.hndl_or_null) (handles (given c) ++ rest)))
