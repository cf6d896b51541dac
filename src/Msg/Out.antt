-- ===== src/Msg/Out.antt =====
-- `Msg_out` of msg.hpp: an out-message and the handle that it owns, and the printing of messages.
pub mod Handles
use ipc_transport_structured.Prelude.{
  ℕ, ◌-◌, ◌≤◌, ◌≡◌, Bool, true, false, not, Option, none, some, List, [], ◌∷◌, ◌++◌, arith, ◌==◌,
  ltb, if◌then◌else◌, is_some, length,
}
use ipc_transport_structured.Msg.MsgIn.{Payload}

-- The payloads that the builder holds, and the handle, a null one being `none`. The body root points
-- into the builder.
pub record MsgOut : Type 0 where
  pub segments : List Payload
  pub hndl_or_null : Option ℕ

-- The default constructor, and what a message is after it was moved from.
unfoldable pub new_blank : MsgOut
new_blank = record { segments = []; hndl_or_null = none }

-- The constructor from a builder; the one from a configuration makes the builder first.
unfoldable pub new_msg_out : List Payload → MsgOut
new_msg_out segments = record { segments = segments; hndl_or_null = none }

abbrev pub same_handle : Option ℕ → Option ℕ → Bool
same_handle none none = true
same_handle (some a) (some b) = a == b
same_handle _ _ = false

abbrev pub handles : Option ℕ → List ℕ
handles none = []
handles (some h) = h ∷ []

-- The message, the handle that the argument is left with, and the handles that were returned to the
-- OS, in order.
unfoldable pub store_native_handle_or_null : Option ℕ → MsgOut → List ℕ → MsgOut × Option ℕ × List ℕ
store_native_handle_or_null hndl m os =
    if same_handle hndl m.hndl_or_null
    then (m, hndl, os)
    else (record m { hndl_or_null = hndl }, none, os ++ handles m.hndl_or_null)

-- `operator=`, for two messages: the one assigned to, the one moved from, and what was returned to
-- the OS.
unfoldable pub move_assign : MsgOut → MsgOut → List ℕ → MsgOut × MsgOut × List ℕ
move_assign m src os =
    let m1 : MsgOut = record m { segments = src.segments } in
    let (m2, arg, os2) =
      if same_handle m1.hndl_or_null src.hndl_or_null
      then (m1, none, os)
      else store_native_handle_or_null none m1 os in
    (record m2 { hndl_or_null = src.hndl_or_null }, new_blank, os2)

-- The move constructor.
unfoldable pub move_construct : MsgOut → List ℕ → MsgOut × MsgOut × List ℕ
move_construct src os = move_assign new_blank src os

-- The destructor.
unfoldable pub destroy : MsgOut → List ℕ → List ℕ
destroy m os = (store_native_handle_or_null none m os).2
