-- ===== src/Chan/Weave/Poll.antt =====
-- Messages that arrive one after another, with the handlers run after each: the handlers are called
-- as if they had been run once, at the end.
use mathlib.Core.List.{append-nil, append_assoc}
use ipc_transport_structured.Prelude.{
  ℕ, ◌≡◌, sym, ap, ◌∙◌, true, false, none, some, List, [], ◌∷◌, ◌++◌, arith, map, All,
}
use ipc_transport_structured.Prelude.Map.{find}
use ipc_transport_structured.Msg.MsgIn.{MsgIn}
use ipc_transport_structured.Chan.State.{Env, Chan, deliver, on_msg}
use ipc_transport_structured.Chan.Handlers.{handlers_post, run_task, run_tasks, handlers_poll}
use ipc_transport_structured.Chan.Dispatch.{is_next_expected, next_unsolicited}
use ipc_transport_structured.Chan.Receive.{new_msg_in}
use ipc_transport_structured.Chan.Reassembly.{queued}
use ipc_transport_structured.Chan.Order.{dispatch_all}
use ipc_transport_structured.Chan.Pending.{IsUnsolicited}
use ipc_transport_structured.Chan.Framing.{IsIdle}

-- The channel once the handler `h` was called with the messages.
abbrev pub told : ℕ → List MsgIn → Chan → Chan
told h ms s = record s { sync_io_handlers = []; events = s.events ++ map (on_msg h) ms }

-- The messages handled one after another, each with the handlers run after it.
abbrev pub polled : Env → List MsgIn → Chan → Chan
polled env [] s = s
polled env (m ∷ ms) s = polled env ms (handlers_poll (new_msg_in env m s).0)

-- No message is refused, and no handler waits before one.
abbrev pub Calm : Env → List MsgIn → Chan → Type 0
Calm env [] s = IsIdle s
Calm env (m ∷ ms) s =
    let r = new_msg_in env m s in IsIdle s × (r.1 ≡ true) × Calm env ms (handlers_poll r.0)

-- The kind `which` is awaited without end by the handler `h`, and calls of it alone are posted.
pub record Expects (h which : ℕ) (zs : List MsgIn) (s : Chan) : Type 0 where
  pub posted : s.sync_io_handlers ≡ map (deliver h) zs
  pub err : s.channel_err_code_or_ok ≡ none
  pub awaited :
      find which s.rcv_expecting_msg_map ≡ some (record { one_expected = false; on_msg_func = h })
  pub kinds : All (IsUnsolicited which) (queued s.rcv_reassembly_q)

run_deliveries :
    (h : ℕ) (zs : List MsgIn) (s : Chan)
    → run_tasks (map (deliver h) zs) s ≡ record s { events = s.events ++ map (on_msg h) zs }
unfolding run_tasks run_task
run_deliveries h [] s = ap (λ es. record s { events = es }) (sym (append-nil s.events))
run_deliveries h (z ∷ zs) s =
    run_deliveries h zs (record s { events = s.events ++ on_msg h z ∷ [] })
    ∙ ap (λ es. record s { events = es })
        (append_assoc s.events (on_msg h z ∷ []) (map (on_msg h) zs))

pub handlers_poll-told :
    (h : ℕ) (zs : List MsgIn) (s : Chan)
    → s.sync_io_handlers ≡ map (deliver h) zs
    → handlers_poll s ≡ told h zs s
unfolding handlers_poll
handlers_poll-told h zs s e =
    ap (λ ts. run_tasks ts (record s { sync_io_handlers = [] })) e
    ∙ run_deliveries h zs (record s { sync_io_handlers = [] })

pub dispatch_all-posted :
    (env : Env) (h which : ℕ) (xs : List MsgIn) (s : Chan)
    → find which s.rcv_expecting_msg_map ≡ some (record { one_expected = false; on_msg_func = h })
    → All (IsUnsolicited which) xs
    → dispatch_all env xs s
      ≡ record s { sync_io_handlers = s.sync_io_handlers ++ map (deliver h) xs }
unfolding dispatch_all
dispatch_all-posted env h which [] s a u =
    ap (λ ts. record s { sync_io_handlers = ts }) (sym (append-nil s.sync_io_handlers))
dispatch_all-posted env h which (x ∷ xs) s a (u, us) =
    let one : is_next_expected env x s
        ≡ record s { sync_io_handlers = s.sync_io_handlers ++ deliver h x ∷ [] } =
      unfold is_next_expected in
      unfold next_unsolicited in unfold handlers_post in ground (arith, u.plain, u.kind, a) in
    ap (dispatch_all env xs) one
    ∙ dispatch_all-posted env h which xs
        (record s { sync_io_handlers = s.sync_io_handlers ++ deliver h x ∷ [] }) a us
    ∙ ap (λ ts. record s { sync_io_handlers = ts })
        (append_assoc s.sync_io_handlers (deliver h x ∷ []) (map (deliver h) xs))
