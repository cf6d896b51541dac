-- ===== src/Chan/Stream.antt =====
-- User messages in a row: the calls of `send` on one side, and what an awaited message does on the
-- other side.
pub mod Sender
pub mod Link
pub mod One
pub mod Heard
use ipc_transport_structured.Prelude.{
  ℕ, ◌+◌, ◌<◌, ◌≡◌, ◌≢◌, refl, sym, ap, ◌∙◌, Bool, true, false, Option, none, some, List, [], ◌∷◌,
  ◌++◌, arith, ◌==◌, map,
}
use ipc_transport_structured.Prelude.Map.{find}
use ipc_transport_structured.Msg.MsgIn.{
  MsgIn, new_msg_in, add_serialization_segment, id_or_none, originating_msg_id_or_none, Payload,
}
use ipc_transport_structured.Chan.State.{
  Env, Chan, MsgOut, Event, on_msg, deliver, logged_in, increment, has_2_pipes,
}
use ipc_transport_structured.Chan.Handlers.{handlers_post, handlers_poll, run_tasks, run_task}
use ipc_transport_structured.Chan.Dispatch.{is_next_expected, next_unsolicited}
use ipc_transport_structured.Chan.Send.{send}
use ipc_transport_structured.Chan.Pipe.{
  MsgInPipe, read_lead_msg, Read, Progress, progress, next_target, complete_msg, rcv_blob_max_size,
  fed, read_chain,
}
use ipc_transport_structured.Chan.Receive.{
  accept_in_order, accept_by_id, drain_reassembly_q, new_msg_in as rcv_struct_new_msg_in,
}
use ipc_transport_structured.Chan.Framing.{IsIdle, after}
use ipc_transport_structured.Chan.Order.{opened, IsFine, opened_keeps, new_msg_in-fine}

-- A side that waits for the next message and gives those of the kind `which` to the handler `h`.
pub record Listens (h which : ℕ) (t : Chan) : Type 0 where
  pub phase : t.phase ≡ logged_in
  pub idle : IsIdle t
  pub nothing_queued : t.rcv_reassembly_q ≡ []
  pub awaited :
      find which t.rcv_expecting_msg_map ≡ some (record { one_expected = false; on_msg_func = h })

-- The channel once the handler `h` was called with the message.
abbrev pub heard_one : ℕ → MsgIn → Chan → Chan
heard_one h m t = record t {
  rcv_msg_next_id = increment t.rcv_msg_next_id;
  sync_io_handlers = [];
  events = t.events ++ on_msg h m ∷ [];
}

-- A pipe that waits for the metadata of a message.
abbrev pub waiting : MsgInPipe → MsgInPipe
waiting pipe = record pipe { incomplete_msg = record new_msg_in { mdt_reader = some ([] ∷ []) } }

module _ (env : Env) (h which : ℕ) where
  accept-Listens :
      (m : MsgIn) (t : Chan)
      → Listens h which t
      → originating_msg_id_or_none m ≡ 0
      → m.body_which ≡ which
      → accept_in_order env m t ≡ (
        record t {
          rcv_msg_next_id = increment t.rcv_msg_next_id;
          sync_io_handlers = deliver h m ∷ [];
        },
        true,
      )
  unfolding accept_in_order is_next_expected next_unsolicited handlers_post drain_reassembly_q
  accept-Listens m t l o k =
      ground (arith, l.phase, l.idle.handlers, l.nothing_queued, l.awaited, o, k)

  module _ (roomy : (sz : ℕ) (segs : List Payload) → env.reader.alloc sz segs ≡ true) where
    -- With room, the pipe waits for the next message.
    pub next_target-waiting :
        (pipe : MsgInPipe) (t : Chan)
        → next_target env read_lead_msg new_msg_in pipe t ≡ progress t (waiting pipe) read_lead_msg
    unfolding next_target add_serialization_segment new_msg_in
    next_target-waiting pipe t = ground (arith, roomy (rcv_blob_max_size env pipe.lead_msg_mode) [])

    new_msg_in-Listens :
        (m : MsgIn) (t : Chan)
        → Listens h which t
        → IsFine env t.session_token m
        → id_or_none m ≡ t.rcv_msg_next_id
        → originating_msg_id_or_none (opened env m) ≡ 0
        → (opened env m).body_which ≡ which
        → rcv_struct_new_msg_in env m t ≡ (
          record t {
            rcv_msg_next_id = increment t.rcv_msg_next_id;
            sync_io_handlers = deliver h (opened env m) ∷ [];
          },
          true,
        )
    unfolding accept_by_id
    new_msg_in-Listens m t l f n o k =
        new_msg_in-fine env m t f l.phase
        ∙ ground (arith, opened_keeps env m, f.user, l.phase)
        ∙ accept-Listens (opened env m) t l o k

    handlers_poll-one :
        (m : MsgIn) (id : ℕ) (t : Chan)
        → handlers_poll (record t { rcv_msg_next_id = id; sync_io_handlers = deliver h m ∷ [] })
          ≡ record t {
            rcv_msg_next_id = id;
            sync_io_handlers = [];
            events = t.events ++ on_msg h m ∷ [];
          }
    unfolding handlers_poll run_tasks run_task
    handlers_poll-one m id t = refl

    -- What follows the last payload of a message that is awaited.
    pub complete_msg-Listens :
        (m : MsgIn) (t : Chan) (pipe : MsgInPipe) (more : List Read)
        → Listens h which t
        → IsFine env t.session_token m
        → id_or_none m ≡ t.rcv_msg_next_id
        → originating_msg_id_or_none (opened env m) ≡ 0
        → (opened env m).body_which ≡ which
        → after env more (complete_msg env m pipe t)
          ≡ read_chain env more
              (progress (heard_one h (opened env m) t) (waiting pipe) read_lead_msg)
    unfolding complete_msg
    complete_msg-Listens m t pipe more l f n o k =
        let id = increment t.rcv_msg_next_id in
        let due : Chan = record t {
          rcv_msg_next_id = id;
          sync_io_handlers = deliver h (opened env m) ∷ [];
        } in
        ap (λ (r : Chan × Bool). after env more (fed env pipe r)) (new_msg_in-Listens m t l f n o k)
        ∙ ap (after env more) (next_target-waiting pipe due)
        ∙ ap (λ u. read_chain env more (progress u (waiting pipe) read_lead_msg))
            (handlers_poll-one (opened env m) id t)

  pub heard_one-Listens :
      (m : MsgIn) (t : Chan) → Listens h which t → Listens h which (heard_one h m t)
  heard_one-Listens m t l = record {
    phase = l.phase;
    idle = record { handlers = refl; err = l.idle.err };
    nothing_queued = l.nothing_queued;
    awaited = l.awaited;
  }
