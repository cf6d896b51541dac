-- ===== src/Chan/Tests/Reading.antt =====
-- Reads of an in-pipe.
use ipc_transport_structured.Prelude.{
  not, ◌≤◌, ◌≡◌, ◌≢◌, refl, true, false, none, some, List, [], ◌∷◌, arith, All, length,
}
use ipc_transport_structured.Error.{make_error_code, lower, ok}
use ipc_transport_structured.Msg.MsgIn.{
  Payload, MsgIn, new_msg_in, deserialize_mdt, accept_mdt, token_of, check_ids,
}
use ipc_transport_structured.Msg.Mdt.{originating_or_none, mdt_out}
use ipc_transport_structured.Prelude.Map.{find, emplace}
use ipc_transport_structured.Chan.Send.{
  send_meta_blobs, send, async_request, send_impl, send_core, conclude_send, serialize,
  send_payloads, by_pipes, send_blobs,
}
use ipc_transport_structured.Chan.Expect.{expect_msgs}
use ipc_transport_structured.Chan.State.{
  two_pipes, Env, on_error, Chan, logged_in, MsgOut, Expecting,
}
use ipc_transport_structured.Chan.Handlers.{
  handlers_poll, handle_async_err_code, handle_new_error, handlers_post, run_tasks, run_task,
}
use ipc_transport_structured.Chan.Init.{new_logged_in, new_log_in}
use ipc_transport_structured.Chan.Pipe.{
  rcv_with_hndl_else_error, rcv_sans_hndl_only, MsgInPipe, read_lead_msg, stop, Read, progress,
  on_async_read_lead_msg, read_chain,
}
use ipc_transport_structured.Chan.Framing.{IsSegment, IsIdle}
use ipc_transport_structured.Chan.Framing.Message.{
  Delivers, IsLead, head_of, completed, read_chain-Delivers,
}
use ipc_transport_structured.Chan.Errors.{due, allowed}
use ipc_transport_structured.Chan.Errors.Steps.{
  some_misread, expects, requests, reads_lead, Steps, done, and_then,
}
use ipc_transport_structured.Chan.Errors.Steps.Runs.{Steps-sticky, Steps-due}
use ipc_transport_structured.Chan.Errors.Reads.{misread, misreads}
use ipc_transport_structured.Chan.Errors.Steps.Chains.{Told, Healthy, read_chain-Told}
use ipc_transport_structured.Chan.LogIn.Runs.{Steps-token, Steps-first_ids}
use ipc_transport_structured.Chan.Tests.{env_over, env, token, user_mdt}

-- A logged-in channel that was started with the error handler 3.
abbrev up : Chan
up = record (new_logged_in token) { started_ops = true; on_err_func = some 3 }

abbrev in_pipe : MsgInPipe
in_pipe = record {
  lead_msg_mode = rcv_sans_hndl_only;
  n_segs_left_after_this_read = 0;
  incomplete_msg = record new_msg_in { mdt_reader = some ([] ∷ []) };
}

abbrev arrived : Payload → Read
arrived p = record { err_code = none; hndl = none; bytes = p }

-- The metadata of a message with two segments, and the segments.
abbrev lead : Read
lead = arrived (7 ∷ 9 ∷ 1 ∷ 0 ∷ 2 ∷ [])

abbrev segments : List Read
segments = arrived (5 ∷ 6 ∷ []) ∷ arrived (8 ∷ []) ∷ []

abbrev broken : Read
broken = record { err_code = some (lower 1); hndl = none; bytes = [] }

abbrev begun : MsgIn
begun = record new_msg_in {
  mdt_reader = some ((7 ∷ 9 ∷ 1 ∷ 0 ∷ 2 ∷ []) ∷ []);
  mdt_deserialized_ok = true;
  mdt_root = user_mdt 1 none 2;
  session_token = token;
}

lead-IsLead : IsLead lead in_pipe
lead-IsLead = record { err = refl; hndl = refl; filled = refl; fresh = refl }

segments-IsSegment : All IsSegment segments
segments-IsSegment = (
  record { err = refl; hndl = refl; filled = refl },
  (record { err = refl; hndl = refl; filled = refl }, tt),
)

up-IsIdle : IsIdle up
unfolding new_logged_in
up-IsIdle = record { handlers = refl; err = refl }

begun_lem : deserialize_mdt env.reader env.order (head_of lead) ≡ (begun, ok (length segments))
unfolding deserialize_mdt accept_mdt token_of check_ids originating_or_none new_msg_in
begun_lem = refl

read_chain-Delivers_example :
    Delivers env (lead ∷ segments) (progress up in_pipe read_lead_msg) (completed segments begun)
read_chain-Delivers_example =
    read_chain-Delivers env (λ sz segs. refl) lead segments begun in_pipe up lead-IsLead
      segments-IsSegment up-IsIdle begun_lem

up-Healthy : Healthy 3 up
unfolding new_logged_in
up-Healthy = record { quiet = refl; err = refl; on_err = refl; proto = refl }

up-due : due up ≤ allowed up
unfolding new_logged_in
up-due = omega arith

broken_stops : (read_chain env (broken ∷ []) (progress up in_pipe read_lead_msg)).next ≡ stop
unfolding read_chain on_async_read_lead_msg handle_async_err_code new_logged_in
broken_stops = refl

read_chain-Told_example :
    Told 3
      (not (misreads env (broken ∷ []) (progress up in_pipe read_lead_msg)))
      (read_chain env (broken ∷ []) (progress up in_pipe read_lead_msg)).chan
read_chain-Told_example =
    read_chain-Told env 3 (broken ∷ []) (progress up in_pipe read_lead_msg) up-Healthy (λ e. cc)
      broken_stops

-- A lead message that comes without its handle on a pipe for messages with one: the code is falsy, and
-- the channel is left unhosed.
abbrev strict_pipe : MsgInPipe
strict_pipe = record in_pipe { lead_msg_mode = rcv_with_hndl_else_error }

abbrev without_hndl : List Read
without_hndl = arrived (7 ∷ []) ∷ []

misread_is_told :
    let p = progress up strict_pipe read_lead_msg in
    let q = read_chain env without_hndl p in
    (misreads env without_hndl p ≡ true)
    × (q.next ≡ stop)
    × (q.chan.events ≡ on_error 3 none ∷ [])
    × (q.chan.channel_err_code_or_ok ≡ none)
unfolding read_chain on_async_read_lead_msg handle_async_err_code new_logged_in misreads misread
    make_error_code handle_new_error handlers_post handlers_poll run_tasks run_task
misread_is_told = (refl, refl, refl, refl)

-- Its peer takes nothing.
abbrev deaf : Env
deaf = env_over two_pipes (λ sent x. some (lower 1))

abbrev request : MsgOut
request = record { segments = (5 ∷ []) ∷ []; hndl_or_null = none }

-- A send after it fails and returns its error too.
told_and_returned :
    (send deaf request none
      (read_chain env without_hndl (progress up strict_pipe read_lead_msg)).chan).err_code
    ≡ some (lower 1)
unfolding read_chain on_async_read_lead_msg handle_async_err_code new_logged_in make_error_code
    handle_new_error handlers_post handlers_poll run_tasks run_task send send_impl send_core
    conclude_send serialize send_payloads by_pipes send_blobs send_meta_blobs mdt_out
told_and_returned = refl

-- A broken read, and a call after it.
abbrev hosed : Chan
hosed = handlers_poll (on_async_read_lead_msg env broken in_pipe up).chan

hosed_err : hosed.channel_err_code_or_ok ≡ some (lower 1)
unfolding handlers_poll on_async_read_lead_msg handle_async_err_code handle_new_error handlers_post
    run_tasks run_task new_logged_in
hosed_err = refl

abbrev up_to_hosed : Steps env up (expect_msgs 5 4 [] hosed).chan
up_to_hosed = and_then (reads_lead broken in_pipe up-Healthy.proto) (and_then (expects 5 4 []) done)

up_to_hosed_read : some_misread env up_to_hosed ≡ false
unfolding misread new_logged_in
up_to_hosed_read = refl

Steps-due_example : due (expect_msgs 5 4 [] hosed).chan ≤ allowed (expect_msgs 5 4 [] hosed).chan
Steps-due_example =
    Steps-due env up (expect_msgs 5 4 [] hosed).chan up_to_hosed up_to_hosed_read up-due

Steps-sticky_example : (expect_msgs 5 4 [] hosed).chan.channel_err_code_or_ok ≡ some (lower 1)
Steps-sticky_example =
    Steps-sticky env hosed (expect_msgs 5 4 [] hosed).chan (lower 1)
      (and_then (expects 5 4 []) done) hosed_err

up-logged_in : up.phase ≡ logged_in
unfolding new_logged_in
up-logged_in = refl

Steps-token_example :
    ((expect_msgs 5 4 [] hosed).chan.phase ≡ logged_in)
    × ((expect_msgs 5 4 [] hosed).chan.session_token ≡ up.session_token)
Steps-token_example = Steps-token env up (expect_msgs 5 4 [] hosed).chan up_to_hosed up-logged_in

-- A client that asks to be logged in, and asks again.
abbrev client : Chan
client = record (new_log_in false token) { started_ops = true }

abbrev handler : Expecting
handler = record { one_expected = true; on_msg_func = 4 }

abbrev asked : Chan
asked = (async_request env request none handler client).chan

abbrev asked_twice : Chan
asked_twice = (async_request env request none handler asked).chan

client_fields : (client.snd_msg_next_id ≤ 2) × (client.rcv_msg_next_id ≤ 2)
unfolding new_log_in
client_fields = (omega arith, omega arith)

still_open : asked_twice.phase ≢ logged_in
unfolding async_request send_impl send_core conclude_send serialize send_payloads by_pipes
    send_blobs new_log_in mdt_out emplace find
still_open e = cc

Steps-first_ids_example : (asked_twice.snd_msg_next_id ≤ 2) × (asked_twice.rcv_msg_next_id ≤ 2)
Steps-first_ids_example =
    Steps-first_ids env client asked_twice
      (and_then (requests request none handler) (and_then (requests request none handler) done))
      client_fields.0 client_fields.1 still_open
