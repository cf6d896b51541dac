-- ===== src/Error/Symbols/Tests.antt =====
-- A reader of enumerators that tries them one after another, from the last.
use Prim.Native.String.{String}
use ipc_transport_structured.Prelude.{
  ℕ, zero, suc, ◌≤◌, ◌<◌, ◌≡◌, refl, Bool, true, not, ◌&&◌, inl, inr, none, ◌≢◌, some, List, [],
  ◌∷◌, arith, ltb, ◌==◌, Bool-cases, if◌then◌else◌,
}
use ipc_transport_structured.Error.{
  nonzero, mismatch_got_no_hndl, bad_auth, deserialize_failed_segment_misaligned,
}
use ipc_transport_structured.Error.Symbols.{
  code_symbol, int_of, lowest_int, cast, symbol_of_int, folded, IstreamToEnum, to_ostream,
  from_istream,
}
use ipc_transport_structured.Error.Symbols.Reading.{same, same_refl, from_istream-to_ostream}

same_sound : (xs ys : List ℕ) → same xs ys ≡ true → xs ≡ ys
unfolding same
same_sound [] [] h = refl
same_sound (x ∷ xs) (y ∷ ys) h = ground (arith, same_sound xs ys)
same_sound [] (y ∷ ys) h = absurd (cc)
same_sound (x ∷ xs) [] h = absurd (cc)

abbrev fits : (ℕ → String) → ℕ → String → ℕ → Bool
fits printed lowest token n = not (ltb n lowest) && same (folded (printed n)) (folded token)

try_below : (ℕ → String) → ℕ → String → ℕ → ℕ → ℕ
try_below printed lowest token other zero = other
try_below printed lowest token other (suc n) =
    let rest = try_below printed lowest token other n in
    if fits printed lowest token n then n else rest

module _ (printed : ℕ → String) (lowest sentinel i : ℕ) (low : lowest ≤ i)
    (only : (j : ℕ)
      → lowest ≤ j
      → j < sentinel
      → folded (printed j) ≡ folded (printed i)
      → j ≡ i) where
  tried : (n : ℕ) → i < n → n ≤ sentinel → try_below printed lowest (printed i) sentinel n ≡ i
  unfolding try_below
  tried zero h k = absurd (omega arith)
  tried (suc n) h k = elim (Bool-cases (fits printed lowest (printed i) n)) [
    | inl f ↦
        let alike : same (folded (printed n)) (folded (printed i)) ≡ true = ground (arith, f) in
        let above : lowest ≤ n = ground (arith, f) in
        rw f (only n above (omega arith) (same_sound _ _ alike))
    | inr f ↦
        let self = same_refl (folded (printed i)) in
        rw f (
          tried n
            (elim (Bool-cases (i == n)) [
              | inl q ↦ absurd (ground (arith, f, self, q))
              | inr q ↦ ground (arith, q)
            ])
            (omega arith))
  ]

none_tried :
    (printed : ℕ → String) (lowest sentinel : ℕ) (token : String)
    → ((j : ℕ) → lowest ≤ j → j < sentinel → folded (printed j) ≢ folded token)
    → (n : ℕ) → n ≤ sentinel
    → try_below printed lowest token sentinel n ≡ sentinel
unfolding try_below
none_tried printed lowest sentinel token other zero k = refl
none_tried printed lowest sentinel token other (suc n) k =
    elim (Bool-cases (fits printed lowest token n)) [
      | inl f ↦
          let alike : same (folded (printed n)) (folded token) ≡ true = ground (arith, f) in
          let above : lowest ≤ n = ground (arith, f) in
          absurd (other n above (omega arith) (same_sound _ _ alike))
      | inr f ↦ rw f (none_tried printed lowest sentinel token other n (omega arith))
    ]

abbrev one_by_one : IstreamToEnum
one_by_one = record {
  read = λ printed lowest sentinel token. try_below printed lowest token sentinel sentinel;
  finds = λ printed lowest sentinel i low high digit only.
      tried printed lowest sentinel i low only sentinel high (omega arith);
  misses = λ printed lowest sentinel token digit other.
      none_tried printed lowest sentinel token other sentinel (omega arith);
}

from_istream-to_ostream_example :
    from_istream one_by_one (to_ostream (nonzero bad_auth))
    ≡ (if ltb (int_of (nonzero bad_auth)) lowest_int then none else some (nonzero bad_auth))
from_istream-to_ostream_example = from_istream-to_ostream one_by_one (nonzero bad_auth)

-- The first code is not read back.
reads_first : from_istream one_by_one (to_ostream mismatch_got_no_hndl) ≡ none
unfolding from_istream to_ostream try_below same folded symbol_of_int code_symbol cast
reads_first = refl

-- Case does not matter.
reads_lower_case :
    from_istream one_by_one "deserialize_failed_segment_misaligned"
    ≡ some (nonzero deserialize_failed_segment_misaligned)
unfolding from_istream try_below same folded symbol_of_int code_symbol cast
reads_lower_case = refl
