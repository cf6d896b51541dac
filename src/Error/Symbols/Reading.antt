-- ===== src/Error/Symbols/Reading.antt =====
-- A code is read back from what it is printed as.
use ipc_transport_structured.Prelude.{
  Bool-cases, inl, inr, subst, ℕ, zero, suc, ◌≤◌, ◌<◌, ◌≡◌, refl, sym, ap, ◌∙◌, Bool, true, false,
  not, ◌&&◌, ◌||◌, none, some, ltb, if◌then◌else◌, List, [], ◌∷◌, arith, ◌==◌,
}
use ipc_transport_structured.Error.{
  Code, nonzero, mismatch_got_no_hndl, mismatch_got_no_blob, mismatch_got_hndl, misused_schema,
  serialize_leaf_too_big, deserialize_target_alloc_failed, log_in_misused_schema, bad_auth,
  internal_msg_type_unknown, got_unexpected_log_in_request,
  deserialize_failed_insufficient_segments, deserialize_failed_segment_misaligned,
}
use ipc_transport_structured.Error.Symbols.{
  code_symbol, lowest_int, sentinel_int, int_of, cast, symbol_of_int, folded, starts_with_digit,
  IstreamToEnum, to_ostream, from_istream,
}

unfoldable pub same : List ℕ → List ℕ → Bool
same [] [] = true
same (x ∷ xs) (y ∷ ys) = (x == y) && same xs ys
same _ _ = false

pub same_refl : (xs : List ℕ) → same xs xs ≡ true
unfolding same
same_refl [] = refl
same_refl (x ∷ xs) = ground (arith, same_refl xs)

-- A test of the numbers from zero to `last`, each of them.
passes : (ℕ → Bool) → ℕ → Bool
passes test zero = test zero
passes test (suc last) = passes test last && test (suc last)

passes-each : (test : ℕ → Bool) (last k : ℕ) → k ≤ last → passes test last ≡ true → test k ≡ true
unfolding passes
passes-each test zero k le e = let only : 0 ≡ k = omega arith in subst (λ j. test j ≡ true) only e
passes-each test (suc last) k le e = elim (Bool-cases (k == suc last)) [
  | inl q ↦ ground (arith, q, e)
  | inr q ↦ passes-each test last k (ground (arith, q)) (ground (arith, e))
]

abbrev told_apart : ℕ → ℕ → Bool
told_apart i j = not (same (folded (symbol_of_int j)) (folded (symbol_of_int i))) || j == i

abbrev last_code : ℕ
last_code = 11

-- Every pair of enumerators.
all_told_apart : passes (λ i. passes (told_apart i) last_code) last_code ≡ true
unfolding passes same folded symbol_of_int code_symbol cast
all_told_apart = refl

distinct :
    (i j : ℕ)
    → i < sentinel_int
    → j < sentinel_int
    → folded (symbol_of_int j) ≡ folded (symbol_of_int i)
    → j ≡ i
distinct i j hi hj e =
    let row =
      passes-each (λ k. passes (told_apart k) last_code) last_code i (omega arith) all_told_apart in
    let cell = passes-each (told_apart i) last_code j (omega arith) row in
    let alike : same (folded (symbol_of_int j)) (folded (symbol_of_int i)) ≡ true =
      ap (λ xs. same xs (folded (symbol_of_int i))) e ∙ same_refl (folded (symbol_of_int i)) in
    ground (arith, cell, alike)

-- None is printed as a number.
no_digits : passes (λ i. not (starts_with_digit (symbol_of_int i))) last_code ≡ true
unfolding passes starts_with_digit symbol_of_int code_symbol cast
no_digits = refl

no_number : (i : ℕ) → i < sentinel_int → starts_with_digit (symbol_of_int i) ≡ false
no_number i h =
    let here =
      passes-each (λ k. not (starts_with_digit (symbol_of_int k))) last_code i (omega arith)
        no_digits in
    ground (arith, here)

cast-int_of : (c : Code) → cast (int_of c) ≡ some c
unfolding int_of cast
cast-int_of mismatch_got_no_hndl = refl
cast-int_of (nonzero mismatch_got_no_blob) = refl
cast-int_of (nonzero mismatch_got_hndl) = refl
cast-int_of (nonzero misused_schema) = refl
cast-int_of (nonzero serialize_leaf_too_big) = refl
cast-int_of (nonzero deserialize_target_alloc_failed) = refl
cast-int_of (nonzero log_in_misused_schema) = refl
cast-int_of (nonzero bad_auth) = refl
cast-int_of (nonzero internal_msg_type_unknown) = refl
cast-int_of (nonzero got_unexpected_log_in_request) = refl
cast-int_of (nonzero deserialize_failed_insufficient_segments) = refl
cast-int_of (nonzero deserialize_failed_segment_misaligned) = refl

cast-sentinel : cast sentinel_int ≡ none
unfolding cast
cast-sentinel = refl

int_of-lt : (c : Code) → int_of c < sentinel_int
unfolding int_of
int_of-lt mismatch_got_no_hndl = omega arith
int_of-lt (nonzero mismatch_got_no_blob) = omega arith
int_of-lt (nonzero mismatch_got_hndl) = omega arith
int_of-lt (nonzero misused_schema) = omega arith
int_of-lt (nonzero serialize_leaf_too_big) = omega arith
int_of-lt (nonzero deserialize_target_alloc_failed) = omega arith
int_of-lt (nonzero log_in_misused_schema) = omega arith
int_of-lt (nonzero bad_auth) = omega arith
int_of-lt (nonzero internal_msg_type_unknown) = omega arith
int_of-lt (nonzero got_unexpected_log_in_request) = omega arith
int_of-lt (nonzero deserialize_failed_insufficient_segments) = omega arith
int_of-lt (nonzero deserialize_failed_segment_misaligned) = omega arith

-- A code is read back from what it is printed as if its number is not below the lowest that
-- `operator>>` looks for. Otherwise, as it is with the first code, it is read as the sentinel. The
-- function that reads enumerators finds the one that is printed as the token without regard to case,
-- if it is the only one, and yields the sentinel if there is none.
pub from_istream-to_ostream :
    (io : IstreamToEnum) (c : Code)
    → from_istream io (to_ostream c) ≡ (if ltb (int_of c) lowest_int then none else some c)
unfolding from_istream to_ostream symbol_of_int
from_istream-to_ostream io c =
    let i = int_of c in
    let high = int_of-lt c in
    let back = cast-int_of c in
    let printed =
      ap (λ o. cast (io.read symbol_of_int lowest_int sentinel_int (code_symbol o))) (sym back) in
    elim (Bool-cases (ltb i lowest_int)) [
      | inl low ↦
          let missed =
            io.misses symbol_of_int lowest_int sentinel_int (symbol_of_int i) (no_number i high)
              (λ j l h e. absurd (ground (arith, distinct i j high h e, low))) in
          rw low (printed ∙ ap cast missed ∙ cast-sentinel)
      | inr low ↦
          let found =
            io.finds symbol_of_int lowest_int sentinel_int i (ground (arith, low)) high
              (no_number i high) (λ j l h e. distinct i j high h e) in
          rw low (printed ∙ ap cast found ∙ back)
    ]
