-- ===== src/Handler/Request/Numbers.antt =====
-- `strconv.ParseInt` and `%d`.
use mathlib.Core.List.{append_assoc, append-nil}
use internal_transfers_syste.Base.{
  ℕ, zero, suc, ◌+◌, ◌-◌, ◌*◌, ◌/◌, ◌%◌, ◌^◌, ◌≤◌, ◌<◌, ◌≡◌, refl, sym, ap, ◌∙◌, true, false, some,
  List, [], ◌∷◌, ◌++◌, ltb, ◌==◌, arith, inl, inr, Bool-cases, if◌then◌else◌,
}
use internal_transfers_syste.Base.Int.{ℤ, pos, negsuc, IsInt64}
use internal_transfers_syste.Base.Text.{codes, codes-append}
use internal_transfers_syste.Base.Format.{digit, digits, format_int}
use internal_transfers_syste.Handler.Request.{
  parse_digits, parse_magnitude, in_range, parse_codes, parse_int,
}

codes-digit : (d : ℕ) → d < 10 → codes (digit d) ≡ (b'0' + d) ∷ []
unfolding codes
codes-digit zero h = refl
codes-digit (suc zero) h = refl
codes-digit (suc (suc zero)) h = refl
codes-digit (suc (suc (suc zero))) h = refl
codes-digit (suc (suc (suc (suc zero)))) h = refl
codes-digit (suc (suc (suc (suc (suc zero))))) h = refl
codes-digit (suc (suc (suc (suc (suc (suc zero)))))) h = refl
codes-digit (suc (suc (suc (suc (suc (suc (suc zero))))))) h = refl
codes-digit (suc (suc (suc (suc (suc (suc (suc (suc zero)))))))) h = refl
codes-digit (suc (suc (suc (suc (suc (suc (suc (suc (suc zero))))))))) h = refl
codes-digit (suc (suc (suc (suc (suc (suc (suc (suc (suc (suc d)))))))))) h = absurd (omega arith)

parse_digits-digit :
    (d : ℕ) (t : List ℕ) (n : ℕ)
    → d < 10
    → parse_digits (codes (digit d) ++ t) n ≡ parse_digits t (n * 10 + d)
unfolding parse_digits
parse_digits-digit d t n h =
    let back : b'0' + d - b'0' ≡ d = omega arith in rw (codes-digit d h, back) (ground arith)

-- What the digits of `n` make of the number before them.
read_on : ℕ → ℕ → ℕ → ℕ
read_on zero n acc = acc * 10 + n
read_on (suc fuel) n acc =
    let rest = read_on fuel (n / 10) acc * 10 + n % 10 in if ltb n 10 then acc * 10 + n else rest

tenth : (fuel n : ℕ) → n ≤ suc fuel → ltb n 10 ≡ false → n / 10 ≤ fuel
tenth fuel n h large = ground arith

parse_digits-digits :
    (fuel n : ℕ) (t : List ℕ) (acc : ℕ)
    → n ≤ fuel
    → parse_digits (codes (digits fuel n) ++ t) acc ≡ parse_digits t (read_on fuel n acc)
unfolding digits read_on
parse_digits-digits zero n t acc h = parse_digits-digit n t acc (omega arith)
parse_digits-digits (suc fuel) n t acc h = elim (Bool-cases (ltb n 10)) [
  | inl small ↦ rw small (parse_digits-digit n t acc (ground arith))
  | inr large ↦ rw large (
      ap (λ s. parse_digits (s ++ t) acc) (codes-append (digits fuel (n / 10)) (digit (n % 10)))
      ∙ ap (λ s. parse_digits s acc)
          (append_assoc (codes (digits fuel (n / 10))) (codes (digit (n % 10))) t)
      ∙ parse_digits-digits fuel (n / 10) (codes (digit (n % 10)) ++ t) acc (tenth fuel n h large)
      ∙ parse_digits-digit (n % 10) t (read_on fuel (n / 10) acc) (omega arith))
]

read_on-zero : (fuel n : ℕ) → n ≤ fuel → read_on fuel n 0 ≡ n
unfolding read_on
read_on-zero zero n h = omega arith
read_on-zero (suc fuel) n h = elim (Bool-cases (ltb n 10)) [
  | inl small ↦ rw small (omega arith)
  | inr large ↦ rw large (rw (read_on-zero fuel (n / 10) (tenth fuel n h large)) (omega arith))
]

-- A number begins with a digit.
digits_head :
    (fuel n : ℕ) → n ≤ fuel → (c : ℕ) × (s : List ℕ) × (codes (digits fuel n) ≡ c ∷ s) × (b'0' ≤ c)
unfolding digits
digits_head zero n h = (b'0' + n, [], codes-digit n (omega arith), omega arith)
digits_head (suc fuel) n h = elim (Bool-cases (ltb n 10)) [
  | inl small ↦ rw small ((b'0' + n, [], codes-digit n (ground arith), omega arith))
  | inr large ↦
      let (c, s, e, le) = digits_head fuel (n / 10) (tenth fuel n h large) in
      rw large (
        (
          c,
          s ++ codes (digit (n % 10)),
          codes-append (digits fuel (n / 10)) (digit (n % 10))
              ∙ ap (λ l. l ++ codes (digit (n % 10))) e,
          le,
        ))
]

parse_magnitude-digits : (n : ℕ) → parse_magnitude (codes (digits n n)) ≡ some n
unfolding parse_magnitude parse_digits
parse_magnitude-digits n =
    let (c, s, e, le) = digits_head n n (omega arith) in
    ap parse_magnitude e
    ∙ sym (ap (λ l. parse_digits l 0) e)
    ∙ ap (λ l. parse_digits l 0) (sym (append-nil (codes (digits n n))))
    ∙ parse_digits-digits n n [] 0 (omega arith)
    ∙ ap some (read_on-zero n n (omega arith))

-- A number that is printed without a sign is read without one.
parse_codes-digits : (n : ℕ) → n < 2 ^ 63 → parse_codes (codes (digits n n)) ≡ some (pos n)
unfolding parse_codes
parse_codes-digits n fits =
    let (c, s, e, le) = digits_head n n (omega arith) in
    let whole : parse_magnitude (c ∷ s) ≡ some n =
      ap parse_magnitude (sym e) ∙ parse_magnitude-digits n in
    let no_minus : (c == b'-') ≡ false = ground arith in
    let no_plus : (c == b'+') ≡ false = ground arith in
    let small : ltb n (2 ^ 63) ≡ true = ground arith in
    rw e (rw no_minus (rw no_plus (rw whole (rw small refl))))

-- Every `int64` that is printed by `%d` is read back by `strconv.ParseInt` with base 10 and 64 bits.
pub parse_int-format_int : (i : ℤ) → IsInt64 i → parse_int (format_int i) ≡ some i
unfolding parse_int format_int parse_codes codes parse_magnitude
parse_int-format_int (pos n) (fits, _) = parse_codes-digits n fits
parse_int-format_int (negsuc n) (_, fits) =
    let small : ltb n (2 ^ 63) ≡ true = ground arith in
    ap parse_codes (codes-append "-" (digits (suc n) (suc n)))
    ∙ ap (in_range true) (parse_magnitude-digits (suc n))
    ∙ rw small refl
