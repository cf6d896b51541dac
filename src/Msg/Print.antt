-- ===== src/Msg/Print.antt =====
-- `to_ostream` of `Msg_out` and of `Msg_in`, in msg.hpp.
use ipc_transport_structured.Prelude.{
  ℕ, zero, suc, ◌+◌, ◌-◌, ◌≤◌, ◌<◌, ◌≡◌, refl, ap, Option, none, some, List, [], ◌∷◌, ◌++◌, arith,
  ◌==◌, ltb, if◌then◌else◌, length, true, false, Text, codes, take, Bool-cases, inl, inr,
}
use ipc_transport_structured.Msg.Mdt.{StructuredMessage}
use ipc_transport_structured.Msg.MsgIn.{Payload, MsgIn, id_or_none, originating_msg_id_or_none}
use ipc_transport_structured.Msg.Out.{MsgOut}

-- What others print: numbers, handles, and the trees of capnp by `kj::str`.
pub record Printer : Type 0 where
  pub number : ℕ → Text
  pub handle : ℕ → Text
  pub out_body : List Payload → Text
  pub in_body : Option (List Payload) → Text
  pub internal_body : StructuredMessage → Text

-- `MAX_SZ` and `TRUNC_SUFFIX`.
abbrev pub max_sz : ℕ
max_sz = 256

abbrev trunc_suffix : Text
trunc_suffix = codes "... )"

-- A body that is too long is cut off.
unfoldable pub body_text : Text → Text
body_text s =
    if ltb max_sz (length s) then take (max_sz - length trunc_suffix) s ++ trunc_suffix else s

module _ (pr : Printer) where
  abbrev handle_text : Option ℕ → Text
  handle_text none = []
  handle_text (some h) = pr.handle h ++ codes " "

  -- The last argument is the address of the message.
  unfoldable pub out_to_ostream : MsgOut → Text → Text
  out_to_ostream m address =
      codes "[n_serialization_segs["
      ++ (pr.number (length m.segments)
          ++ (codes "] "
              ++ (handle_text m.hndl_or_null
                  ++ (body_text (pr.out_body m.segments) ++ (codes "]@" ++ address)))))

  abbrev response_text : ℕ → Text
  response_text id = if id == 0 then [] else codes "rsp_to_id[" ++ (pr.number id ++ codes "] ")

  unfoldable pub user_text : MsgIn → Text
  user_text m =
      codes "id["
      ++ (pr.number (id_or_none m)
          ++ (codes "] "
              ++ (response_text (originating_msg_id_or_none m)
                  ++ (if m.body_deserialized_ok
                      then body_text (pr.in_body m.body_reader)
                      else codes " ( incomplete )"))))

  unfoldable pub in_to_ostream : MsgIn → Text → Text
  in_to_ostream m address =
      codes "["
      ++ (handle_text m.hndl_or_null
          ++ ((if m.mdt_deserialized_ok
                then if id_or_none m == 0 then pr.internal_body m.mdt_root else user_text m
                else codes "( incomplete )")
              ++ (codes "]@" ++ address)))

not_ltb : (a b : ℕ) → ltb a b ≡ false → b ≤ a
not_ltb a b h = ground arith

is_ltb : (a b : ℕ) → ltb a b ≡ true → a < b
is_ltb a b h = ground arith

take_short : (n : ℕ) (s r : Text) → n ≤ length s → take n (take n s ++ r) ≡ take n s
take_short zero s r h = refl
take_short (suc n) [] r h = absurd (omega arith)
take_short (suc n) (x ∷ s) r h = ap (λ t. x ∷ t) (take_short n s r (omega arith))

length-take_append : (n : ℕ) (s r : Text) → n ≤ length s → length (take n s ++ r) ≡ n + length r
length-take_append zero s r h = omega arith
length-take_append (suc n) [] r h = absurd (omega arith)
length-take_append (suc n) (x ∷ s) r h =
    let rest = length-take_append n s r (omega arith) in omega arith

-- The body of a message is printed in 256 characters at most: as it is if it has no more than those,
-- and otherwise its first 251 characters are printed before the mark of what is left out.
pub body_text-fits :
    (s : Text)
    → (length (body_text s) ≤ 256)
      × (length s ≤ 256 → body_text s ≡ s)
      × (take 251 (body_text s) ≡ take 251 s)
unfolding body_text
body_text-fits s = elim (Bool-cases (ltb 256 (length s))) [
  | inl long ↦
      let over = is_ltb 256 (length s) long in
      let enough : 251 ≤ length s = omega (arith, over) in
      (
        rw long (omega (arith, length-take_append 251 s (codes "... )") enough)),
        λ h. absurd (omega (arith, h, over)),
        rw long (take_short 251 s (codes "... )") enough),
      )
  | inr short ↦ (rw short (not_ltb 256 (length s) short), λ h. rw short refl, rw short refl)
]
