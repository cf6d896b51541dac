-- ===== src/Chan/Stream/Link.antt =====
-- Two sides of a conversation, and what is asked of the messages that go between them.
use ipc_transport_structured.Prelude.{
  ℕ, ◌≡◌, ◌≢◌, true, false, not, ◌&&◌, none, List, [], ◌∷◌, length, is_some,
}
use ipc_transport_structured.Error.{ok}
use ipc_transport_structured.Msg.Mdt.{SessionToken, mdt_out}
use ipc_transport_structured.Msg.MsgIn.{Payload, MsgIn, segments_so_far}
use ipc_transport_structured.Chan.State.{MsgOut, Sent, blob, meta_blob, Env, Chan, logged_in}
use ipc_transport_structured.Chan.Pipe.{LeadMsgMode, wants_hndl, Read}
use ipc_transport_structured.Chan.Transfer.{arrival, Serializes}
use ipc_transport_structured.Chan.Stream.{Listens}

-- What the receives of the other side yield for what was handed to the owned channel.
abbrev pub arrived : Sent → Read
arrived (blob p) = arrival none p
arrived (meta_blob hndl p) = arrival hndl p

-- A message that the pipe may carry, that has a body of the kind `which`, and whose serialization,
-- under any id of a user message, is read back.
pub record Sendable (env : Env) (token : SessionToken) (which : ℕ) (mode : LeadMsgMode)
    (msg : MsgOut) : Type 0 where
  pub some_body : length msg.segments ≢ 0
  pub carried : wants_hndl mode && not (is_some msg.hndl_or_null) ≡ false
  pub serializes :
      (id : ℕ) → id ≢ 0 → Serializes env (mdt_out env.order token 0 id (length msg.segments)) msg
  pub kind :
      (ps : List Payload)
      → env.emit_body msg.segments ≡ ok ps
      → env.reader.deserialize_which ps ≡ ok which

-- The message that arrived is the one that was sent.
pub record Same (env : Env) (token : SessionToken) (which : ℕ) (msg : MsgOut) (m : MsgIn)
    : Type 0 where
  pub body : env.emit_body msg.segments ≡ ok (segments_so_far m.body_reader)
  pub hndl : m.hndl_or_null ≡ msg.hndl_or_null
  pub authentic : m.session_token ≡ token
  pub kind : m.body_which ≡ which
  pub readable : m.body_deserialized_ok ≡ true

abbrev pub EachSame : Env → SessionToken → ℕ → List MsgOut → List MsgIn → Type 0
EachSame env token which [] [] = Unit {0}
EachSame env token which (msg ∷ msgs) (m ∷ ms) =
    Same env token which msg m × EachSame env token which msgs ms
EachSame env token which _ _ = ⊥

-- A side that may send, and a side that waits for what it sends.
pub record Linked (h which : ℕ) (token : SessionToken) (s t : Chan) : Type 0 where
  pub up : s.phase ≡ logged_in
  pub own : s.session_token ≡ token
  pub theirs : t.session_token ≡ token
  pub ids : s.snd_msg_next_id ≡ t.rcv_msg_next_id
  pub user : s.snd_msg_next_id ≢ 0
  pub listens : Listens h which t
