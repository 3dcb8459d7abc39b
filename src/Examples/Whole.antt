-- ===== src/Examples/Whole.antt =====
-- Whole decimals: an instance of the decimal library, and its exact arithmetic.
use internal_transfers_syste.Base.{◌≡◌, refl, ap, true, false, not, Option, none, some, arith}
use internal_transfers_syste.Base.Int.{
  ℤ, pos, ◌+ℤ◌, ◌-ℤ◌, ltb_ℤ, leb_ℤ, int_laws, eq_of_parts, pos_part, neg_part, +ℤ_parts,
}
use internal_transfers_syste.Base.Format.{format_int}
use internal_transfers_syste.Base.Action.{Result, ok, err}
use internal_transfers_syste.Models.{Error, plain, DecimalLib, Exact}
use internal_transfers_syste.Handler.Request.{parse_int}

abbrev pub parsed_decimal : Option ℤ → Result Error ℤ
parsed_decimal none = err (plain "can't convert to decimal")
parsed_decimal (some n) = ok n

abbrev pub whole_decimals : DecimalLib
whole_decimals = record {
  Decimal = ℤ;
  zero = pos 0;
  new_from_string = λ s. parsed_decimal (parse_int s);
  to_string = format_int;
  add = ◌+ℤ◌;
  sub = ◌-ℤ◌;
  less_than = ltb_ℤ;
  less_than_or_equal = leb_ℤ;
}

pub sub_add : (a b : ℤ) → (a -ℤ b) +ℤ b ≡ a
sub_add a b = eq_of_parts _ _ (omega int_laws)

pub leq : (a b : ℤ) → leb_ℤ a b ≡ not (ltb_ℤ b a)
leq a b = ground arith

pub plus_comm : (a b : ℤ) → a +ℤ b ≡ b +ℤ a
unfolding ◌+ℤ◌
plus_comm a b = ground arith

pub plus_assoc : (a b c : ℤ) → (a +ℤ b) +ℤ c ≡ a +ℤ (b +ℤ c)
plus_assoc a b c = eq_of_parts _ _ (omega int_laws)

pub plus_zero : (a : ℤ) → a +ℤ pos 0 ≡ a
plus_zero a = eq_of_parts _ _ (omega int_laws)

pub plus_cancel : (a b c : ℤ) → a +ℤ c ≡ b +ℤ c → a ≡ b
plus_cancel a b c h = eq_of_parts _ _ (omega (int_laws, ap pos_part h, ap neg_part h))

pub lt-plus : (a b c : ℤ) → ltb_ℤ (a +ℤ c) (b +ℤ c) ≡ ltb_ℤ a b
lt-plus a b c = ground (arith, +ℤ_parts a c, +ℤ_parts b c)

pub lt_irrefl : (a : ℤ) → ltb_ℤ a a ≡ false
lt_irrefl a = ground arith

pub lt_trans : (a b c : ℤ) → ltb_ℤ a b ≡ true → ltb_ℤ b c ≡ true → ltb_ℤ a c ≡ true
lt_trans a b c h k = ground arith

abbrev pub whole_exact : Exact whole_decimals
whole_exact = record {
  Quantity = ℤ;
  value = λ a. a;
  origin = pos 0;
  plus = ◌+ℤ◌;
  lt = ltb_ℤ;
  value-zero = refl;
  value-add = λ a b. refl;
  value-sub = sub_add;
  less_than-lt = λ a b. refl;
  less_than_or_equal-lt = λ a b. leq a b;
  plus_comm = plus_comm;
  plus_assoc = plus_assoc;
  plus-origin = plus_zero;
  plus_cancel = plus_cancel;
  lt-plus = lt-plus;
  lt_irrefl = lt_irrefl;
  lt_trans = lt_trans;
}
