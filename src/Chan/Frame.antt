-- ===== src/Chan/Frame.antt =====
-- What the sending and dispatching calls leave alone.
use ipc_transport_structured.Prelude.{
  ℕ, ◌≡◌, refl, Bool, inl, inr, Option, none, arith, ◌==◌, Bool-cases,
}
use ipc_transport_structured.Prelude.Map.{Map}
use ipc_transport_structured.Msg.Mdt.{StructuredMessage}
use ipc_transport_structured.Msg.MsgIn.{MsgIn, originating_msg_id_or_none}
use ipc_transport_structured.Chan.State.{
  Phase, cli_log_in, srv_log_in, logged_in, MsgOut, Env, Chan,
}
use ipc_transport_structured.Chan.Handlers.{handlers_post}
use ipc_transport_structured.Chan.Send.{conclude_send, send_core}
use ipc_transport_structured.Chan.Dispatch.{
  unexpected_response_mdt, inform_of_unexpected_response, next_response, next_unsolicited,
  is_next_expected,
}

-- A property of each branch of a split on the phase is one of the whole.
pub phase_either {ℓ κ} :
    {A : Type ℓ} (P : A → Type κ) (p : Phase) {x y z : A}
    → (p ≡ cli_log_in → P x)
    → (p ≡ srv_log_in → P y)
    → (p ≡ logged_in → P z)
    → P (elim p [ cli_log_in ↦ x | srv_log_in ↦ y | logged_in ↦ z ])
phase_either P logged_in a b c = c refl
phase_either P srv_log_in a b c = b refl
phase_either P cli_log_in a b c = a refl

-- The members that no send and no dispatch writes.
pub record SameBase (s t : Chan) : Type 0 where
  pub started : t.started_ops ≡ s.started_ops
  pub proto : t.proto_neg_err_code_or_ok ≡ s.proto_neg_err_code_or_ok
  pub on_err : t.on_err_func ≡ s.on_err_func
  pub on_unexpected : t.on_unexpected_response_func ≡ s.on_unexpected_response_func
  pub on_remote : t.on_remote_unexpected_response_func ≡ s.on_remote_unexpected_response_func
  pub token : t.session_token ≡ s.session_token
  pub log_in_started : t.phase_log_in_started ≡ s.phase_log_in_started
  pub snd_next : t.snd_msg_next_id ≡ s.snd_msg_next_id
  pub rcv_next : t.rcv_msg_next_id ≡ s.rcv_msg_next_id
  pub reassembly : t.rcv_reassembly_q ≡ s.rcv_reassembly_q
  pub events : t.events ≡ s.events

-- A step that besides hoses nothing and keeps the channel logged in.
pub record IsSteady (s t : Chan) : Type 0 where
  pub err : t.channel_err_code_or_ok ≡ s.channel_err_code_or_ok
  pub phase : t.phase ≡ logged_in

module _ (env : Env) where
  pub send_core-SameBase :
      (mdt : StructuredMessage) (msg : Option MsgOut) (ignore : Bool) (s : Chan)
      → SameBase s (send_core env mdt msg ignore s).chan
  unfolding send_core conclude_send
  send_core-SameBase mdt msg ignore s = ground arith

  send_core-IsSteady :
      (mdt : StructuredMessage) (s : Chan)
      → s.proto_neg_err_code_or_ok ≡ none
      → s.phase ≡ logged_in
      → IsSteady s (send_core env mdt none Bool.true s).chan
  unfolding send_core conclude_send
  send_core-IsSteady mdt s p l = ground arith

  inform-SameBase : (m : MsgIn) (s : Chan) → SameBase s (inform_of_unexpected_response env m s)
  unfolding inform_of_unexpected_response handlers_post
  inform-SameBase m s =
      ground (arith, send_core-SameBase (unexpected_response_mdt env s m) none Bool.true s)

  next_response-SameBase : (id : ℕ) (m : MsgIn) (s : Chan) → SameBase s (next_response env id m s)
  unfolding next_response handlers_post
  next_response-SameBase id m s = ground (arith, inform-SameBase m s)

  next_unsolicited-SameBase :
      (which : ℕ) (m : MsgIn) (s : Chan) → SameBase s (next_unsolicited env which m s)
  unfolding next_unsolicited handlers_post
  next_unsolicited-SameBase which m s = ground arith

  pub is_next_expected-SameBase : (m : MsgIn) (s : Chan) → SameBase s (is_next_expected env m s)
  unfolding is_next_expected
  is_next_expected-SameBase m s = elim (Bool-cases (originating_msg_id_or_none m == 0)) [
    | inl e ↦ rw e (next_unsolicited-SameBase m.body_which m s)
    | inr e ↦ rw e (next_response-SameBase (originating_msg_id_or_none m) m s)
  ]

  inform-IsSteady :
      (m : MsgIn) (s : Chan)
      → s.proto_neg_err_code_or_ok ≡ none
      → s.phase ≡ logged_in
      → IsSteady s (inform_of_unexpected_response env m s)
  unfolding inform_of_unexpected_response handlers_post
  inform-IsSteady m s p l = ground (arith, send_core-IsSteady (unexpected_response_mdt env s m) s)

  next_response-IsSteady :
      (id : ℕ) (m : MsgIn) (s : Chan)
      → s.proto_neg_err_code_or_ok ≡ none
      → s.phase ≡ logged_in
      → IsSteady s (next_response env id m s)
  unfolding next_response handlers_post
  next_response-IsSteady id m s p l = ground (arith, inform-IsSteady m s)

  pub is_next_expected-IsSteady :
      (m : MsgIn) (s : Chan)
      → s.proto_neg_err_code_or_ok ≡ none
      → s.phase ≡ logged_in
      → IsSteady s (is_next_expected env m s)
  unfolding is_next_expected next_unsolicited handlers_post
  is_next_expected-IsSteady m s p l =
      ground (arith, next_response-IsSteady (originating_msg_id_or_none m) m s)

unfoldable pub with_queue : Map MsgIn → ℕ → Chan → Chan
with_queue q n s = record s { rcv_reassembly_q = q; rcv_msg_next_id = n }

-- The dispatch does not look at the reassembly queue and the next id.
module _ (env : Env) (q : Map MsgIn) (n : ℕ) where
  send_core-with_queue :
      (mdt : StructuredMessage) (msg : Option MsgOut) (ignore : Bool) (s : Chan)
      → (send_core env mdt msg ignore (with_queue q n s)).chan
        ≡ with_queue q n (send_core env mdt msg ignore s).chan
  unfolding send_core conclude_send with_queue
  send_core-with_queue mdt msg ignore s = ground arith

  inform-with_queue :
      (m : MsgIn) (s : Chan)
      → inform_of_unexpected_response env m (with_queue q n s)
        ≡ with_queue q n (inform_of_unexpected_response env m s)
  unfolding inform_of_unexpected_response handlers_post unexpected_response_mdt with_queue
  inform-with_queue m s =
      ground (arith, send_core-with_queue (unexpected_response_mdt env s m) none Bool.true s)

  next_response-with_queue :
      (id : ℕ) (m : MsgIn) (s : Chan)
      → next_response env id m (with_queue q n s) ≡ with_queue q n (next_response env id m s)
  unfolding next_response handlers_post with_queue
  next_response-with_queue id m s = ground (arith, inform-with_queue m s)

  pub is_next_expected-with_queue :
      (m : MsgIn) (s : Chan)
      → is_next_expected env m (with_queue q n s) ≡ with_queue q n (is_next_expected env m s)
  unfolding is_next_expected next_unsolicited handlers_post with_queue
  is_next_expected-with_queue m s =
      ground (arith, next_response-with_queue (originating_msg_id_or_none m) m s)
