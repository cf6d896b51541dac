-- ===== src/Sync/Tests.antt =====
-- A blocking request over a logged-in channel.
use ipc_transport_structured.Prelude.{some, ◌+◌, ◌≡◌, refl, true, none, List, [], ◌∷◌, arith}
use ipc_transport_structured.Error.{lower, ok, err}
use ipc_transport_structured.Msg.Mdt.{mdt_out}
use ipc_transport_structured.Msg.MsgIn.{new_msg_in}
use ipc_transport_structured.Chan.State.{two_pipes, MsgOut, Env}
use ipc_transport_structured.Chan.Init.{new_logged_in}
use ipc_transport_structured.Chan.Send.{
  async_request, send_impl, send_core, conclude_send, serialize, send_payloads, by_pipes,
  send_blobs,
}
use ipc_transport_structured.Async.State.{nothing, Wrapper}
use ipc_transport_structured.Sync.{
  Event, responds, fails, all_happen, begin_request, answer_of, sync_request,
}
use ipc_transport_structured.Sync.Race.{
  first_result, failures, op, told, held, sync_request-first_result, all_happen-told,
}

abbrev env : Env
env = record {
  pipes = two_pipes;
  reader = record {
    alloc = λ sz segs. true;
    deserialize_mdt = λ segs. err (lower 0);
    deserialize_which = λ segs. ok 5;
  };
  order = record {
    native_to_little = λ x. x;
    little_to_native = λ x. x;
    little_to_native-native_to_little = λ x. refl;
  };
  receive_blob_max_size = 64;
  receive_meta_blob_max_size = 64;
  emit_mdt = λ mdt. ok (mdt.id ∷ []);
  emit_body = λ segs. ok segs;
  mdt_text = λ which mdt. [];
  transmit = λ sent x. none;
}

abbrev calm : Wrapper
calm = record {
  sync_io = record (new_logged_in (record { first8 = 7; last8 = 9 })) { started_ops = true };
  sync_op_state = none;
  sync_op_state_id = 4;
  snd_end_sending_on_done_func_or_empty = none;
  worker = [];
  calls = [];
}

abbrev request : MsgOut
request = record { segments = (5 ∷ []) ∷ []; hndl_or_null = none }

-- The response to an earlier request, an error, and the response, too late.
abbrev eventful : List Event
eventful =
    responds 3 new_msg_in
    ∷ fails 6 (some (lower 1))
    ∷ responds 4 new_msg_in
    ∷ fails 6 (some (lower 2))
    ∷ []

calm_waits : (begin_request env (λ id. id) request none calm).waits ≡ true
unfolding begin_request async_request send_impl send_core conclude_send serialize send_payloads
    by_pipes send_blobs new_logged_in mdt_out
calm_waits = refl

sync_request-first_result_example :
    let r = sync_request env (λ id. id) request none eventful calm in
    let answer = answer_of (first_result 4 eventful) in
    (r.1 ≡ answer.0) × (r.2 ≡ answer.1) × (r.0.sync_op_state ≡ none)
sync_request-first_result_example =
    sync_request-first_result env (λ id. id) request none eventful calm calm_waits (omega arith)

abbrev waiting : Wrapper
waiting = record calm { sync_op_state = op 4 nothing }

all_happen-told_example :
    told (all_happen eventful waiting).calls + held (all_happen eventful waiting).sync_op_state
    ≡ told waiting.calls + held waiting.sync_op_state + failures eventful
all_happen-told_example = all_happen-told eventful waiting
