-- ===== src/Chan/Framing/Message.antt =====
-- A read chain that begins with the metadata of a message ends with the whole message.
use mathlib.Core.List.{append_assoc}
use ipc_transport_structured.Prelude.{
  ℕ, suc, ◌≡◌, ◌≢◌, refl, ap, ◌∙◌, true, false, not, ◌&&◌, none, some, List, [], ◌∷◌, ◌++◌, arith,
  All, map, length, is_empty, is_some,
}
use ipc_transport_structured.Error.{ok}
use ipc_transport_structured.Msg.MsgIn.{
  Payload, MsgIn, new_msg_in, store_native_handle_or_null, set_last, fill_target,
  add_serialization_segment, accept_mdt, deserialize_mdt,
}
use ipc_transport_structured.Chan.State.{Env, Chan}
use ipc_transport_structured.Chan.Handlers.{handle_async_err_code}
use ipc_transport_structured.Chan.Pipe.{
  wants_hndl, MsgInPipe, read_lead_msg, read_cont_msg, Read, Progress, progress, next_target,
  complete_msg, continue_msg, on_lead_payload, on_async_read_lead_msg, read_chain,
  rcv_blob_max_size,
}
use ipc_transport_structured.Chan.Framing.{
  IsSegment, after, IsIdle, poll_idle, with_body, cont_more, cont_last,
}

abbrev pub bytes_of : Read → Payload
bytes_of r = r.bytes

-- The reads `rs` lead to the handling of the whole message `m`, and then the reads go on.
pub record Delivers (env : Env) (rs : List Read) (p : Progress) (m : MsgIn) : Type 0 where
  pub last : MsgInPipe
  pub mode : last.lead_msg_mode ≡ p.pipe.lead_msg_mode
  pub outcome :
      (more : List Read)
      → read_chain env (rs ++ more) p ≡ after env more (complete_msg env m last p.chan)

-- A lead payload that arrived whole, over a pipe that waits for one.
pub record IsLead (r : Read) (pipe : MsgInPipe) : Type 0 where
  pub err : r.err_code ≡ none
  pub hndl : wants_hndl pipe.lead_msg_mode && not (is_some r.hndl) ≡ false
  pub filled : is_empty r.bytes ≡ false
  pub fresh : pipe.incomplete_msg ≡ record new_msg_in { mdt_reader = some ([] ∷ []) }

-- The message with the metadata payload alone.
abbrev pub head_of : Read → MsgIn
head_of r = record new_msg_in { mdt_reader = some (r.bytes ∷ []); hndl_or_null = r.hndl }

abbrev pub completed : List Read → MsgIn → MsgIn
completed [] m = m
completed (r ∷ rs) m = with_body (map bytes_of (r ∷ rs)) m

module _ (env : Env)
    (roomy : (sz : ℕ) (segs : List Payload) → env.reader.alloc sz segs ≡ true) where
  conts_Delivers :
      (r : Read) (rs : List Read) (xs : List Payload) (m : MsgIn) (pipe : MsgInPipe) (s : Chan)
      → All IsSegment (r ∷ rs)
      → IsIdle s
      → m.mdt_reader ≢ none
      → pipe.incomplete_msg ≡ with_body (xs ++ [] ∷ []) m
      → pipe.n_segs_left_after_this_read ≡ length rs
      → Delivers env
          (r ∷ rs)
          (progress s pipe read_cont_msg)
          (with_body (xs ++ map bytes_of (r ∷ rs)) m)
  unfolding read_chain
  conts_Delivers r [] xs m pipe s g i h e n = record {
    last = pipe;
    mode = refl;
    outcome = λ more. ap (after env more) (cont_last env roomy r xs m pipe s g.0 i e n);
  }
  conts_Delivers r (r' ∷ rs) xs m pipe s g i h e n =
      let pipe' : MsgInPipe = record pipe {
        n_segs_left_after_this_read = length rs;
        incomplete_msg = with_body ((xs ++ r.bytes ∷ []) ++ [] ∷ []) m;
      } in
      let d = conts_Delivers r' rs (xs ++ r.bytes ∷ []) m pipe' s g.1 i h refl refl in
      record {
        last = d.last;
        mode = d.mode;
        outcome = λ more.
            ap (after env ((r' ∷ rs) ++ more))
              (cont_more env roomy r (length rs) xs m pipe s g.0 i h e n)
            ∙ ap (λ t. read_chain env ((r' ∷ rs) ++ more) (progress t pipe' read_cont_msg))
                (poll_idle s i)
            ∙ d.outcome more
            ∙ ap (λ ys. after env more (complete_msg env (with_body ys m) d.last s))
                (append_assoc xs (r.bytes ∷ []) (map bytes_of (r' ∷ rs)));
      }

  pub lead_more :
      (r : Read) (left : ℕ) (m : MsgIn) (pipe : MsgInPipe) (s : Chan)
      → IsLead r pipe
      → IsIdle s
      → deserialize_mdt env.reader env.order (head_of r) ≡ (m, ok (suc left))
      → m.mdt_reader ≢ none
      → m.body_reader ≡ none
      → on_async_read_lead_msg env r pipe s
        ≡ progress s
            (record pipe {
              n_segs_left_after_this_read = left;
              incomplete_msg = with_body ([] ∷ []) m;
            })
            read_cont_msg
  unfolding on_async_read_lead_msg handle_async_err_code on_lead_payload continue_msg next_target
      add_serialization_segment fill_target store_native_handle_or_null set_last new_msg_in
  lead_more r left m pipe s g i d h b = ground (
    arith,
    g.err,
    g.hndl,
    g.filled,
    g.fresh,
    i.err,
    d,
    roomy (rcv_blob_max_size env pipe.lead_msg_mode) [],
  )

  pub lead_whole :
      (r : Read) (m : MsgIn) (pipe : MsgInPipe) (s : Chan)
      → IsLead r pipe
      → IsIdle s
      → deserialize_mdt env.reader env.order (head_of r) ≡ (m, ok 0)
      → on_async_read_lead_msg env r pipe s
        ≡ complete_msg env m (record pipe { n_segs_left_after_this_read = 0 }) s
  unfolding on_async_read_lead_msg handle_async_err_code on_lead_payload fill_target
      store_native_handle_or_null set_last new_msg_in
  lead_whole r m pipe s g i d = ground (arith, g.err, g.hndl, g.filled, g.fresh, i.err, d)

  -- The deserialization leaves the segments alone.
  pub mdt_keeps :
      (m : MsgIn)
      → let t = (deserialize_mdt env.reader env.order m).0 in
        (t.mdt_reader ≡ m.mdt_reader) × (t.body_reader ≡ m.body_reader)
  unfolding deserialize_mdt accept_mdt
  mdt_keeps m = ground arith

  -- While there is no error and the reader has memory, a metadata payload that announces as many body segments as the payloads that follow it makes
  -- with them exactly one message, which holds the segments in order and the handle of the first
  -- payload, and is handled once; the reading then goes on after it.
  pub read_chain-Delivers :
      (lead : Read) (rs : List Read) (m : MsgIn) (pipe : MsgInPipe) (s : Chan)
      → IsLead lead pipe
      → All IsSegment rs
      → IsIdle s
      → deserialize_mdt env.reader env.order (head_of lead) ≡ (m, ok (length rs))
      → Delivers env (lead ∷ rs) (progress s pipe read_lead_msg) (completed rs m)
  unfolding read_chain new_msg_in
  read_chain-Delivers lead [] m pipe s g gs i d = record {
    last = record pipe { n_segs_left_after_this_read = 0 };
    mode = refl;
    outcome = λ more. ap (after env more) (lead_whole lead m pipe s g i d);
  }
  read_chain-Delivers lead (r ∷ rs) m pipe s g gs i d =
      let kept = mdt_keeps (head_of lead) in
      let here : m.mdt_reader ≡ some (lead.bytes ∷ []) = ground (arith, d, kept) in
      let none_yet : m.body_reader ≡ none = ground (arith, d, kept) in
      let some_mdt : m.mdt_reader ≢ none = λ e. ground (arith, here, e) in
      let pipe' : MsgInPipe = record pipe {
        n_segs_left_after_this_read = length rs;
        incomplete_msg = with_body ([] ∷ []) m;
      } in
      let rest = conts_Delivers r rs [] m pipe' s gs i some_mdt refl refl in
      record {
        last = rest.last;
        mode = rest.mode;
        outcome = λ more.
            ap (after env ((r ∷ rs) ++ more))
              (lead_more lead (length rs) m pipe s g i d some_mdt none_yet)
            ∙ ap (λ t. read_chain env ((r ∷ rs) ++ more) (progress t pipe' read_cont_msg))
                (poll_idle s i)
            ∙ rest.outcome more;
      }
