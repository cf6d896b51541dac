-- ===== src/Chan/Tests/Receiving.antt =====
-- Messages that arrive at a logged-in channel.
use mathlib.Core.List.{perm_append_comm}
use ipc_transport_structured.Prelude.{
  ℕ, ◌+◌, ◌<◌, ◌≤◌, ◌≡◌, ◌≢◌, refl, none, List, [], ◌∷◌, arith, All,
}
use ipc_transport_structured.Prelude.Map.{find}
use ipc_transport_structured.Msg.Mdt.{token_eq}
use ipc_transport_structured.Msg.MsgIn.{MsgIn, id_or_none, deserialize_body}
use ipc_transport_structured.Chan.State.{Chan}
use ipc_transport_structured.Chan.Init.{new_logged_in}
use ipc_transport_structured.Chan.Order.{IsFine}
use ipc_transport_structured.Chan.Arrival.{arrivals, IsReassembling, CanArrive}
use ipc_transport_structured.Chan.Arrival.Complete.{
  DispatchedInOrder, arrivals-DispatchedInOrder, arrivals-perm,
}
use ipc_transport_structured.Chan.Tests.{env, token, message}

abbrev up : Chan
up = new_logged_in token

abbrev late_first : List MsgIn
late_first = message 2 none 5 ∷ message 1 none 5 ∷ []

abbrev in_turn : List MsgIn
in_turn = message 1 none 5 ∷ message 2 none 5 ∷ []

up-IsReassembling : IsReassembling env up
unfolding new_logged_in
up-IsReassembling = record { pipes = refl; phase = refl; proto = refl; queue = tt }

message-IsFine : (id : ℕ) → id ≢ 0 → IsFine env up.session_token (message id none 5)
unfolding new_logged_in id_or_none deserialize_body token_eq
message-IsFine id n = record { user = n; readable = refl; authentic = refl }

up-fields : (up.session_token ≡ token) × (up.rcv_msg_next_id ≡ 1) × (up.rcv_reassembly_q ≡ [])
unfolding new_logged_in
up-fields = (refl, refl, refl)

can_arrive :
    (a b : ℕ) → 1 ≤ a → 1 ≤ b → a ≢ b → CanArrive env up (message a none 5 ∷ message b none 5 ∷ [])
unfolding new_logged_in id_or_none find
can_arrive a b h k d = record {
  fine = (
    message-IsFine a (λ e. omega (arith, h, e)),
    (message-IsFine b (λ e. omega (arith, k, e)), tt),
  );
  ahead = (h, (k, tt));
  unseen = (refl, (refl, tt));
  distinct = ((d, tt), (tt, tt));
  room = omega arith;
}

in_range :
    (a b : ℕ)
    → a < 3
    → b < 3
    → All (λ m. id_or_none m < up.rcv_msg_next_id + 2) (message a none 5 ∷ message b none 5 ∷ [])
unfolding new_logged_in id_or_none
in_range a b h k = (h, (k, tt))

arrivals-DispatchedInOrder_example : DispatchedInOrder env late_first up
arrivals-DispatchedInOrder_example =
    arrivals-DispatchedInOrder env late_first up up-IsReassembling
      (can_arrive 2 1 (omega arith) (omega arith) (λ e. omega (arith, e))) up-fields.2
      (in_range 2 1 (omega arith) (omega arith))

arrivals-perm_example : arrivals env late_first up ≡ arrivals env in_turn up
arrivals-perm_example =
    arrivals-perm env late_first in_turn up up-IsReassembling
      (can_arrive 2 1 (omega arith) (omega arith) (λ e. omega (arith, e)))
      (can_arrive 1 2 (omega arith) (omega arith) (λ e. omega (arith, e))) up-fields.2
      (in_range 2 1 (omega arith) (omega arith)) (in_range 1 2 (omega arith) (omega arith))
      (perm_append_comm (message 2 none 5 ∷ []) (message 1 none 5 ∷ []))
