-- ===== src/Chan/Tests/Weaving.antt =====
-- Two messages over two pipes: the second is whole before the first, and their payloads are mixed.
use ipc_transport_structured.Prelude.{
  ℕ, ◌+◌, ◌<◌, ◌≡◌, refl, Option, none, some, List, [], ◌∷◌, arith, All,
}
use ipc_transport_structured.Prelude.Map.{find}
use ipc_transport_structured.Msg.Mdt.{token_eq, originating_or_none}
use ipc_transport_structured.Msg.MsgIn.{
  MsgIn, new_msg_in, deserialize_mdt, deserialize_body, id_or_none, originating_msg_id_or_none,
  accept_mdt, token_of, check_ids,
}
use ipc_transport_structured.Chan.Init.{new_logged_in}
use ipc_transport_structured.Chan.Pipe.{rcv_sans_hndl_only, MsgInPipe, read_lead_msg, Read}
use ipc_transport_structured.Chan.Order.{opened}
use ipc_transport_structured.Chan.Pending.{IsUnsolicited}
use ipc_transport_structured.Chan.Framing.Message.{head_of, completed}
use ipc_transport_structured.Chan.Transfer.{arrival}
use ipc_transport_structured.Chan.Arrival.{IsReassembling, CanArrive}
use ipc_transport_structured.Chan.Weave.Poll.{Expects}
use ipc_transport_structured.Chan.Weave.Pipes.{
  Side, blobs, handles, reads_of, both, read_both, Feeds, ends,
}
use ipc_transport_structured.Chan.Weave.Message.{message-Feeds}
use ipc_transport_structured.Chan.Weave.InOrder.{HeardInOrder, read_both-HeardInOrder}
use ipc_transport_structured.Chan.Tests.Transferring.{env, in_pipe}
use ipc_transport_structured.Chan.Tests.Streaming.{listener}

abbrev lead : Option ℕ → ℕ → ℕ → Read
lead hndl id n = arrival hndl (7 ∷ 9 ∷ id ∷ 0 ∷ n ∷ [])

abbrev pub mixed : List (Side × Read)
mixed =
    (blobs, lead none 2 1)
    ∷ (handles, lead (some 11) 1 2)
    ∷ (handles, arrival none (5 ∷ 6 ∷ []))
    ∷ (blobs, arrival none (5 ∷ []))
    ∷ (handles, arrival none (8 ∷ []))
    ∷ []

abbrev pub blobs_pipe : MsgInPipe
blobs_pipe = record in_pipe { lead_msg_mode = rcv_sans_hndl_only }

abbrev headed : Option ℕ → ℕ → ℕ → MsgIn
headed hndl id n = (deserialize_mdt env.reader env.order (head_of (lead hndl id n))).0

abbrev first : MsgIn
first = completed (arrival none (5 ∷ 6 ∷ []) ∷ arrival none (8 ∷ []) ∷ []) (headed (some 11) 1 2)

abbrev second : MsgIn
second = completed (arrival none (5 ∷ []) ∷ []) (headed none 2 1)

second-Feeds : Feeds env blobs_pipe read_lead_msg (reads_of blobs mixed) (second ∷ [])
unfolding deserialize_mdt accept_mdt token_of check_ids new_msg_in
second-Feeds =
    message-Feeds env (λ sz segs. refl) (lead none 2 1) (arrival none (5 ∷ []) ∷ []) []
      (headed none 2 1) blobs_pipe []
      (record { err = refl; hndl = refl; filled = refl; fresh = refl })
      (record { err = refl; hndl = refl; filled = refl }, tt) refl (λ last e. ends)

first-Feeds : Feeds env in_pipe read_lead_msg (reads_of handles mixed) (first ∷ [])
unfolding deserialize_mdt accept_mdt token_of check_ids new_msg_in
first-Feeds =
    message-Feeds env (λ sz segs. refl) (lead (some 11) 1 2)
      (arrival none (5 ∷ 6 ∷ []) ∷ arrival none (8 ∷ []) ∷ []) [] (headed (some 11) 1 2) in_pipe []
      (record { err = refl; hndl = refl; filled = refl; fresh = refl })
      (
        record { err = refl; hndl = refl; filled = refl },
        (record { err = refl; hndl = refl; filled = refl }, tt),
      )
      refl (λ last e. ends)

listener-IsReassembling : IsReassembling env listener
unfolding new_logged_in
listener-IsReassembling = record { pipes = refl; phase = refl; proto = refl; queue = tt }

listener-Expects : Expects 4 5 [] listener
unfolding new_logged_in find
listener-Expects = record { posted = refl; err = refl; awaited = refl; kinds = tt }

both-CanArrive : CanArrive env listener (second ∷ first ∷ [])
unfolding new_logged_in find deserialize_mdt accept_mdt token_of check_ids id_or_none
    deserialize_body token_eq new_msg_in
both-CanArrive = record {
  fine = (
    record { user = λ e. omega (arith, e); readable = refl; authentic = refl },
    (record { user = λ e. omega (arith, e); readable = refl; authentic = refl }, tt),
  );
  ahead = (omega arith, (omega arith, tt));
  unseen = (refl, (refl, tt));
  distinct = (((λ e. omega (arith, e)), tt), (tt, tt));
  room = omega arith;
}

both_numbered : All (λ m. id_or_none m < listener.rcv_msg_next_id + 2) (second ∷ first ∷ [])
unfolding new_logged_in deserialize_mdt accept_mdt token_of check_ids id_or_none new_msg_in
both_numbered = (omega arith, (omega arith, tt))

both_kinds : All (λ m. IsUnsolicited 5 (opened env m)) (second ∷ first ∷ [])
unfolding deserialize_mdt accept_mdt token_of check_ids originating_msg_id_or_none deserialize_body
    new_msg_in originating_or_none
both_kinds = (record { plain = refl; kind = refl }, (record { plain = refl; kind = refl }, tt))

nothing_yet : listener.rcv_reassembly_q ≡ []
unfolding new_logged_in
nothing_yet = refl

read_both-HeardInOrder_example :
    HeardInOrder env 4
      (second ∷ first ∷ [])
      listener
      (read_both env mixed (both listener blobs_pipe read_lead_msg in_pipe read_lead_msg)).chan
read_both-HeardInOrder_example =
    read_both-HeardInOrder env 4 5 mixed blobs_pipe in_pipe read_lead_msg read_lead_msg
      (second ∷ []) (first ∷ []) listener second-Feeds first-Feeds listener-IsReassembling
      listener-Expects nothing_yet both-CanArrive both_numbered both_kinds
