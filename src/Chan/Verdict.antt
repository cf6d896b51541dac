-- ===== src/Chan/Verdict.antt =====
-- How the handling of one in-message can end: it is taken, or it hoses the channel.
pub mod Stages
use mathlib.Core.List.{append-nil, append_assoc}
use ipc_transport_structured.Prelude.{
  ℕ, ◌+◌, ◌≡◌, refl, sym, ap, ◌∙◌, Bool, true, false, inl, inr, Option, none, some, List, [], ◌∷◌,
  ◌++◌, arith, ◌==◌, Bool-cases, Option-cases, is_some, either_branch,
}
use ipc_transport_structured.Error.{NonzeroCode, ErrorCode, struc}
use ipc_transport_structured.Prelude.Map.{find}
use ipc_transport_structured.Msg.Mdt.{StructuredMessage}
use ipc_transport_structured.Msg.MsgIn.{
  MsgIn, id_or_none, originating_msg_id_or_none, deserialize_body,
}
use ipc_transport_structured.Chan.State.{
  Phase, logged_in, srv_log_in, cli_log_in, MsgOut, Env, Task, deliver, unexpected_response,
  remote_unexpected_response, report_error, Chan, two_pipes, has_2_pipes,
}
use ipc_transport_structured.Chan.Handlers.{handlers_post, handle_new_error}
use ipc_transport_structured.Chan.Send.{conclude_send, send_core}
use ipc_transport_structured.Chan.Dispatch.{
  unexpected_response_mdt, inform_of_unexpected_response, next_response, next_unsolicited,
  is_next_expected,
}
use ipc_transport_structured.Chan.Receive.{
  fail, new_internal_msg_in, new_msg_in_during_log_in_as_cli, new_msg_in_during_log_in_as_srv,
  drain_reassembly_q, accept_in_order, accept_out_of_order, accept_by_id, token_error, authenticate,
  body_then, new_msg_in,
}

-- How many tasks report the channel's error.
abbrev pub reports : List Task → ℕ
reports [] = 0
reports (report_error ∷ ts) = 1 + reports ts
reports (t ∷ ts) = reports ts

pub reports-append : (xs ys : List Task) → reports (xs ++ ys) ≡ reports xs + reports ys
reports-append [] ys = omega arith
reports-append (report_error ∷ ts) ys = omega (arith, reports-append ts ys)
reports-append (deliver h m ∷ ts) ys = reports-append ts ys
reports-append (unexpected_response m ∷ ts) ys = reports-append ts ys
reports-append (remote_unexpected_response id text ∷ ts) ys = reports-append ts ys

-- From `s` to `t` some tasks were posted, none of them a report of an error, and no error was set.
pub record Accepts (s t : Chan) : Type 0 where
  pub posted : List Task
  pub quiet : reports posted ≡ 0
  pub handlers : t.sync_io_handlers ≡ s.sync_io_handlers ++ posted
  pub err : t.channel_err_code_or_ok ≡ s.channel_err_code_or_ok
  pub events : t.events ≡ s.events
  pub on_err : t.on_err_func ≡ s.on_err_func
  pub proto : t.proto_neg_err_code_or_ok ≡ s.proto_neg_err_code_or_ok

pub Accepts-refl : (s : Chan) → Accepts s s
Accepts-refl s = record {
  posted = [];
  quiet = refl;
  handlers = sym (append-nil s.sync_io_handlers);
  err = refl;
  events = refl;
  on_err = refl;
  proto = refl;
}

pub Accepts-trans : {s t u : Chan} → Accepts s t → Accepts t u → Accepts s u
Accepts-trans {s} a b = record {
  posted = a.posted ++ b.posted;
  quiet = omega (arith, a.quiet, b.quiet, reports-append a.posted b.posted);
  handlers =
      b.handlers
      ∙ ap (λ ts. ts ++ b.posted) a.handlers
      ∙ append_assoc s.sync_io_handlers a.posted b.posted;
  err = b.err ∙ a.err;
  events = b.events ∙ a.events;
  on_err = b.on_err ∙ a.on_err;
  proto = b.proto ∙ a.proto;
}

-- Members that `Accepts` does not speak of may differ.
pub Accepts-alike :
    {s t : Chan} (u : Chan)
    → Accepts s t
    → u.sync_io_handlers ≡ t.sync_io_handlers
    → u.channel_err_code_or_ok ≡ t.channel_err_code_or_ok
    → u.events ≡ t.events
    → u.on_err_func ≡ t.on_err_func
    → u.proto_neg_err_code_or_ok ≡ t.proto_neg_err_code_or_ok
    → Accepts s u
Accepts-alike u a h e v o p = record {
  posted = a.posted;
  quiet = a.quiet;
  handlers = h ∙ a.handlers;
  err = e ∙ a.err;
  events = v ∙ a.events;
  on_err = o ∙ a.on_err;
  proto = p ∙ a.proto;
}

-- The Boolean that the handling returns tells which way it ended.
pub data Verdict (s : Chan) : Chan × Bool → Type 0 where
  accepted : {t : Chan} → Accepts s t → Verdict s (t, true)
  hosed : {u : Chan} (e : ErrorCode) → Accepts s u → Verdict s (handle_new_error (some e) u, false)

module _ (env : Env) where
  send_core-Accepts :
      (mdt : StructuredMessage) (s : Chan)
      → s.proto_neg_err_code_or_ok ≡ none
      → Accepts s (send_core env mdt none true s).chan
  unfolding send_core conclude_send
  send_core-Accepts mdt s p = record {
    posted = [];
    quiet = refl;
    handlers = ground (arith, append-nil s.sync_io_handlers);
    err = ground arith;
    events = ground arith;
    on_err = ground arith;
    proto = ground arith;
  }

  pub post-Accepts : (t : Task) (s : Chan) → reports (t ∷ []) ≡ 0 → Accepts s (handlers_post t s)
  unfolding handlers_post
  post-Accepts t s q = record {
    posted = t ∷ [];
    quiet = q;
    handlers = refl;
    err = refl;
    events = refl;
    on_err = refl;
    proto = refl;
  }

  inform-Accepts :
      (m : MsgIn) (s : Chan)
      → s.proto_neg_err_code_or_ok ≡ none
      → Accepts s (inform_of_unexpected_response env m s)
  unfolding inform_of_unexpected_response
  inform-Accepts m s p = elim (Bool-cases (is_some s.channel_err_code_or_ok)) [
    | inl bad ↦ rw bad (post-Accepts (unexpected_response m) s refl)
    | inr good ↦ rw good (
        Accepts-trans (send_core-Accepts (unexpected_response_mdt env s m) s p)
          (post-Accepts (unexpected_response m) _ refl))
  ]

  deliver-Accepts : (h : ℕ) (m : MsgIn) (s : Chan) → Accepts s (handlers_post (deliver h m) s)
  deliver-Accepts h m s = post-Accepts (deliver h m) s refl

  next_response-Accepts :
      (id : ℕ) (m : MsgIn) (s : Chan)
      → s.proto_neg_err_code_or_ok ≡ none
      → Accepts s (next_response env id m s)
  unfolding next_response
  next_response-Accepts id m s p = elim (Option-cases (find id s.rcv_expecting_response_map)) [
    | inl e ↦ rw (e, next_response) (inform-Accepts m s p)
    | inr (x, e) ↦
        let a = deliver-Accepts x.on_msg_func m s in
        rw (e, next_response)
          (either_branch (Accepts s) x.one_expected (Accepts-alike _ a refl refl refl refl refl) a)
  ]

  next_unsolicited-Accepts :
      (which : ℕ) (m : MsgIn) (s : Chan) → Accepts s (next_unsolicited env which m s)
  unfolding next_unsolicited
  next_unsolicited-Accepts which m s = elim (Option-cases (find which s.rcv_expecting_msg_map)) [
    | inl e ↦ rw (e, next_unsolicited) (Accepts-alike _ (Accepts-refl s) refl refl refl refl refl)
    | inr (x, e) ↦
        let a = deliver-Accepts x.on_msg_func m s in
        rw (e, next_unsolicited)
          (either_branch (Accepts s) x.one_expected (Accepts-alike _ a refl refl refl refl refl) a)
  ]

  pub is_next_expected-Accepts :
      (m : MsgIn) (s : Chan)
      → s.proto_neg_err_code_or_ok ≡ none
      → Accepts s (is_next_expected env m s)
  unfolding is_next_expected
  is_next_expected-Accepts m s p =
      either_branch (Accepts s) (originating_msg_id_or_none m == 0)
        (next_unsolicited-Accepts m.body_which m s)
        (next_response-Accepts (originating_msg_id_or_none m) m s p)
