-- ===== src/Chan/Init.antt =====
-- The two principal constructors of `sync_io::Channel`; the others only choose their arguments.
use ipc_transport_structured.Prelude.{Bool, false, none, [], if◌then◌else◌}
use ipc_transport_structured.Msg.Mdt.{SessionToken, nil_token}
use ipc_transport_structured.Chan.State.{Phase, logged_in, srv_log_in, cli_log_in, Chan}

abbrev fresh : SessionToken → Phase → Chan
fresh token phase = record {
  started_ops = false;
  proto_neg_err_code_or_ok = none;
  on_err_func = none;
  on_unexpected_response_func = none;
  on_remote_unexpected_response_func = none;
  session_token = token;
  snd_msg_next_id = 1;
  phase = phase;
  phase_log_in_started = false;
  channel_err_code_or_ok = none;
  rcv_expecting_response_map = [];
  rcv_expecting_msg_map = [];
  rcv_msg_next_id = 1;
  rcv_reassembly_q = [];
  rcv_pending_msgs = [];
  sync_io_handlers = [];
  sent = [];
  events = [];
}

-- The log-in phase is bypassed; the token is not nil.
unfoldable pub new_logged_in : SessionToken → Chan
new_logged_in token = fresh token logged_in

-- The server draws a random token; the client has none until the log-in response.
unfoldable pub new_log_in : Bool → SessionToken → Chan
new_log_in is_server random_token =
    if is_server then fresh random_token srv_log_in else fresh nil_token cli_log_in
