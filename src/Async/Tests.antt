-- ===== src/Async/Tests.antt =====
-- A channel with a thread, over a logged-in channel: a message comes before it is expected, the end of
-- the sends is asked for, and then the pipe breaks.
use ipc_transport_structured.Prelude.{ℕ, ◌≡◌, refl, none, some, List, [], ◌∷◌, map}
use ipc_transport_structured.Prelude.Map.{find, erase, emplace, assign}
use ipc_transport_structured.Error.{lower, ok}
use ipc_transport_structured.Msg.MsgIn.{
  Payload, new_msg_in, set_last, add_serialization_segment, fill_target,
  store_native_handle_or_null, deserialize_mdt, accept_mdt, check_ids, token_of, deserialize_body,
  id_or_none, originating_msg_id_or_none,
}
use ipc_transport_structured.Msg.Mdt.{originating_or_none, token_eq}
use ipc_transport_structured.Chan.State.{Chan, on_msg, on_error}
use ipc_transport_structured.Chan.Handlers.{
  handlers_poll, run_tasks, run_task, handle_async_err_code, handle_new_error, handlers_post,
}
use ipc_transport_structured.Chan.Receive.{
  new_msg_in as rcv_struct_new_msg_in, authenticate, token_error, accept_by_id, accept_in_order,
  drain_reassembly_q,
}
use ipc_transport_structured.Chan.Dispatch.{is_next_expected, next_unsolicited}
use ipc_transport_structured.Chan.Expect.{
  expect_msgs, expect_msgs_impl, take_pending, check_phase_and_prior_error,
}
use ipc_transport_structured.Chan.Init.{new_logged_in}
use ipc_transport_structured.Chan.Start.{
  negotiate, on_async_read_proto_neg_msg, Negotiators, start_ops, send_proto_neg, send_all,
  start_and_poll, new_pipes, new_pipe,
}
use ipc_transport_structured.Chan.Pipe.{
  rcv_sans_hndl_only, read_lead_msg, Read, Progress, progress, read_chain, on_async_read_lead_msg,
  on_async_read_continuation_msg, on_lead_payload, continue_msg, complete_msg, next_target,
  rcv_blob_max_size,
}
use ipc_transport_structured.Chan.Tests.{env, token}
use ipc_transport_structured.Async.State.{Wrapper, Call, handler, end_sending_done, post, call}
use ipc_transport_structured.Async.Worker.{
  on_delivery, on_event, on_events, settle, invoke_each, end_sending, run_posted, run_next,
  run_all_posted, destroy,
}
use ipc_transport_structured.Async.Calls
use ipc_transport_structured.Async.Calls.{core_end_sending, refused, would_block, new_channel}
use ipc_transport_structured.Async.Actions.{
  Action, starts, expects, ends_sending, sending_ended, becomes_active, reads_negotiation,
  runs_next, perform, perform_all,
}
use ipc_transport_structured.Async.EndSending.{not_asked, answered, ended}
use ipc_transport_structured.Async.EndSending.Once.{asks_all, accepted_all, destroy-ended}
use ipc_transport_structured.Sync.{on_error as on_error_posted}

abbrev negotiators : Negotiators
negotiators = record {
  ver_unknown = 0;
  local_max_proto_ver = 1;
  local_max_proto_ver_aux = 1;
  emit_negotiation = λ v w. v ∷ w ∷ [];
  read_negotiation = λ p. (1, 1);
  compute_negotiated_proto_ver = λ v. ok v;
  compute_negotiated_proto_ver_aux = λ v. ok v;
}

abbrev core : Chan
core = new_logged_in token

abbrev arrived : Payload → Read
arrived p = record { err_code = none; hndl = none; bytes = p }

abbrev broken : Read
broken = record { err_code = some (lower 1); hndl = none; bytes = [] }

abbrev ready : Progress
ready =
    progress core
      (record {
        lead_msg_mode = rcv_sans_hndl_only;
        n_segs_left_after_this_read = 0;
        incomplete_msg = record new_msg_in { mdt_reader = some ([] ∷ []) };
      })
      read_lead_msg

abbrev kind_of : Call → ℕ
kind_of (handler (on_msg h m)) = h
kind_of (handler (on_error h e)) = h
kind_of (handler _) = 0
kind_of (end_sending_done h e) = h

abbrev story : List Action
story =
    starts 9
    ∷ reads_negotiation negotiators (arrived (1 ∷ [])) ready.pipe (record { ver = 0; ver_aux = 0 })
    ∷ ends_sending would_block 8
    ∷ becomes_active (arrived (7 ∷ 9 ∷ 1 ∷ 0 ∷ 1 ∷ []) ∷ arrived (5 ∷ 6 ∷ []) ∷ []) ready
    ∷ expects 5 3
    ∷ runs_next
    ∷ sending_ended none
    ∷ ends_sending refused 4
    ∷ becomes_active (broken ∷ []) ready
    ∷ []

abbrev opened : Wrapper
opened = new_channel env negotiators core

-- The handlers that have been called in the end, in order.
called_by : List Action → List ℕ
unfolding new_channel start_ops send_proto_neg send_all new_logged_in perform_all perform run_next
    run_all_posted run_posted destroy end_sending settle on_events on_event on_delivery post call
    invoke_each Calls.start Calls.expect_msgs Calls.async_end_sending Calls.on_end_sending
    Calls.on_active_ev Calls.on_active_ev_proto_neg on_async_read_proto_neg_msg negotiate
    core_end_sending start_and_poll new_pipes new_pipe add_serialization_segment read_chain
    handlers_poll run_tasks run_task on_async_read_lead_msg on_async_read_continuation_msg
    handle_async_err_code handle_new_error handlers_post on_lead_payload continue_msg complete_msg
    next_target fill_target store_native_handle_or_null deserialize_mdt accept_mdt check_ids
    token_of rcv_struct_new_msg_in authenticate token_error accept_by_id accept_in_order
    drain_reassembly_q deserialize_body is_next_expected next_unsolicited expect_msgs
    expect_msgs_impl take_pending check_phase_and_prior_error on_error_posted new_msg_in
    rcv_blob_max_size id_or_none originating_msg_id_or_none originating_or_none find erase emplace
    assign set_last token_eq
called_by actions = map kind_of (destroy (perform_all env actions opened)).calls

kept_word : asks_all env story opened not_asked ≡ some answered
unfolding called_by
kept_word = refl

destroy-ended_example :
    ended (destroy (perform_all env story opened)).calls ≡ accepted_all env story opened
destroy-ended_example = destroy-ended env negotiators core story answered kept_word

-- The cached message, the end of the sends and the error have been told, in this order.
what_is_called : called_by story ≡ 3 ∷ 8 ∷ 9 ∷ []
unfolding called_by
what_is_called = refl
