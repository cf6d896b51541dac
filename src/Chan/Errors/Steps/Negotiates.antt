-- ===== src/Chan/Errors/Steps/Negotiates.antt =====
-- What the read of a negotiation message may do to the channel.
use ipc_transport_structured.Prelude.{
  ◌≡◌, sym, subst, true, inl, inr, Option, none, some, arith, ◌==◌, Option-cases, Bool-cases,
}
use ipc_transport_structured.Error.{ErrorCode}
use ipc_transport_structured.Chan.State.{Chan}
use ipc_transport_structured.Chan.Handlers.{handlers_poll, handle_new_error, handle_async_err_code}
use ipc_transport_structured.Chan.Pipe.{MsgInPipe, Read}
use ipc_transport_structured.Chan.Errors.Reads.{handle_async-clear, handle_async-new}
use ipc_transport_structured.Chan.Start.{
  Negotiators, Negotiated, received, negotiate, on_async_read_proto_neg_msg,
}

pub data Negotiates (s : Chan) : Chan → Type 0 where
  untouched : Negotiates s s
  polls : Negotiates s (handlers_poll s)
  hosed :
      (e : ErrorCode)
      → s.channel_err_code_or_ok ≡ none
      → Negotiates s (handlers_poll (handle_new_error (some e) s))

hosed_before :
    (c : Option ErrorCode) (e : ErrorCode) (s : Chan)
    → s.channel_err_code_or_ok ≡ some e
    → handle_async_err_code c s ≡ (s, true)
unfolding handle_async_err_code
hosed_before c e s h = ground arith

pub on_async_read_proto_neg_msg-Negotiates :
    (neg : Negotiators) (r : Read) (pipe : MsgInPipe) (g : Negotiated) (s : Chan)
    → Negotiates s (on_async_read_proto_neg_msg neg r pipe (g, s)).1.chan
unfolding on_async_read_proto_neg_msg
on_async_read_proto_neg_msg-Negotiates neg r pipe g s =
    let t = (on_async_read_proto_neg_msg neg r pipe (g, s)).1.chan in
    elim (Option-cases s.channel_err_code_or_ok) [
      | inr (d, c) ↦ rw (hosed_before r.err_code d s c) polls
      | inl c ↦ elim (Option-cases r.err_code) [
        | inr (e, f) ↦ rw (handle_async-new r.err_code e s f c) (hosed e c)
        | inl f ↦
            let clear = handle_async-clear r.err_code s f c in
            elim (Option-cases (negotiate neg (received neg r) g).1) [
              | inl n ↦
                  let same : t ≡ s = ground (arith, clear, n) in
                  subst (Negotiates s) (sym same) untouched
              | inr (e, n) ↦ elim (Bool-cases (g.ver == neg.ver_unknown)) [
                | inr v ↦
                    let same : t ≡ s = ground (arith, clear, v) in
                    subst (Negotiates s) (sym same) untouched
                | inl v ↦
                    let here : t ≡ handlers_poll (handle_new_error (some e) s) =
                      ground (arith, clear, v, n) in
                    subst (Negotiates s) (sym here) (hosed e c)
              ]
            ]
      ]
    ]
