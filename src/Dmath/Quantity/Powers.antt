-- ===== src/Dmath/Quantity/Powers.antt =====
-- The number 0 and the powers of 2 as an instance of the products, quotients and order of dmath::bq,
-- which shows that the laws of a trade can hold. A power is its exponent. Of sums and differences
-- only q - q = 0 is needed: they are all 0 here.
use d_barter.Base.{◌≡◌, refl, sym, ap, ◌∙◌, Bool, true, false, Option, none, some, [], ltb, arith}
use d_barter.Base.Int.{ℤ, pos, negsuc, ◌+ℤ◌, ◌-ℤ◌}
use d_barter.Dmath.Quantity.{Quantity, Ratio, IsRatio}

abbrev pub lt_z : ℤ → ℤ → Bool
lt_z (pos a) (pos b) = ltb a b
lt_z (pos a) (negsuc b) = false
lt_z (negsuc a) (pos b) = true
lt_z (negsuc a) (negsuc b) = ltb b a

add_comm : (a b : ℤ) → a +ℤ b ≡ b +ℤ a
add_comm (pos a) (pos b) = ground arith
add_comm (pos a) (negsuc b) = ground arith
add_comm (negsuc a) (pos b) = ground arith
add_comm (negsuc a) (negsuc b) = ground arith

add_assoc : (a b c : ℤ) → (a +ℤ b) +ℤ c ≡ a +ℤ (b +ℤ c)
add_assoc (pos a) (pos b) (pos c) = ground arith
add_assoc (pos a) (pos b) (negsuc c) = ground arith
add_assoc (pos a) (negsuc b) (pos c) = ground arith
add_assoc (pos a) (negsuc b) (negsuc c) = ground arith
add_assoc (negsuc a) (pos b) (pos c) = ground arith
add_assoc (negsuc a) (pos b) (negsuc c) = ground arith
add_assoc (negsuc a) (negsuc b) (pos c) = ground arith
add_assoc (negsuc a) (negsuc b) (negsuc c) = ground arith

add-sub : (a b : ℤ) → b +ℤ (a -ℤ b) ≡ a
add-sub (pos a) (pos b) = ground arith
add-sub (pos a) (negsuc b) = ground arith
add-sub (negsuc a) (pos b) = ground arith
add-sub (negsuc a) (negsuc b) = ground arith

lt_z-+ℤ : (a b c : ℤ) → lt_z (a +ℤ c) (b +ℤ c) ≡ lt_z a b
lt_z-+ℤ (pos a) (pos b) (pos c) = ground arith
lt_z-+ℤ (pos a) (pos b) (negsuc c) = ground arith
lt_z-+ℤ (pos a) (negsuc b) (pos c) = ground arith
lt_z-+ℤ (pos a) (negsuc b) (negsuc c) = ground arith
lt_z-+ℤ (negsuc a) (pos b) (pos c) = ground arith
lt_z-+ℤ (negsuc a) (pos b) (negsuc c) = ground arith
lt_z-+ℤ (negsuc a) (negsuc b) (pos c) = ground arith
lt_z-+ℤ (negsuc a) (negsuc b) (negsuc c) = ground arith

lt_z_irrefl : (a : ℤ) → lt_z a a ≡ false
lt_z_irrefl (pos a) = ground arith
lt_z_irrefl (negsuc a) = ground arith

lt_z_asymm : (a b : ℤ) → lt_z a b ≡ true → lt_z b a ≡ false
lt_z_asymm (pos a) (pos b) h = ground arith
lt_z_asymm (pos a) (negsuc b) h = ground arith
lt_z_asymm (negsuc a) (pos b) h = ground arith
lt_z_asymm (negsuc a) (negsuc b) h = ground arith

abbrev times : Option ℤ → Option ℤ → Option ℤ
times none b = none
times (some a) none = none
times (some a) (some b) = some (a +ℤ b)

abbrev over : Option ℤ → Option ℤ → Option ℤ
over none b = none
over (some a) none = none
over (some a) (some b) = some (a -ℤ b)

abbrev less : Option ℤ → Option ℤ → Bool
less none none = false
less none (some b) = true
less (some a) none = false
less (some a) (some b) = lt_z a b

abbrev is_none : Option ℤ → Bool
is_none none = true
is_none (some a) = false

abbrev pub powers : Quantity
powers = record {
  Q = Option ℤ;
  zero = none;
  add = λ a b. none;
  sub = λ a b. none;
  is_zero = is_none;
  is_neg = λ a. false;
  neg = λ a. a;
  div_ten = λ a. a;
  of_int = λ z. none;
  trunc = λ a. 0;
  num = λ a. 0;
  den = λ a. 1;
  frac = λ z w. none;
  get_str = λ i. [];
  set_str = λ s. none;
}

abbrev pub powers_ratio : Ratio powers
powers_ratio = record { one = some (pos 0); mul = times; div = over; lt = less }

times_comm : (a b : Option ℤ) → times a b ≡ times b a
times_comm none none = refl
times_comm none (some b) = refl
times_comm (some a) none = refl
times_comm (some a) (some b) = ap some (add_comm a b)

times_assoc : (a b c : Option ℤ) → times (times a b) c ≡ times a (times b c)
times_assoc none b c = refl
times_assoc (some a) none c = refl
times_assoc (some a) (some b) none = refl
times_assoc (some a) (some b) (some c) = ap some (add_assoc a b c)

times_one : (a : Option ℤ) → times a (some (pos 0)) ≡ a
times_one none = refl
times_one (some (pos a)) = ground arith
times_one (some (negsuc a)) = ground arith

times-over : (a b : Option ℤ) → less none b ≡ true → times b (over a b) ≡ a
times-over a none h = cc
times-over none (some b) h = refl
times-over (some a) (some b) h = ap some (add-sub a b)

times_pos :
    (a b : Option ℤ) → less none a ≡ true → less none b ≡ true → less none (times a b) ≡ true
times_pos none b h k = h
times_pos (some a) none h k = k
times_pos (some a) (some b) h k = refl

less_irrefl : (a : Option ℤ) → less a a ≡ false
less_irrefl none = refl
less_irrefl (some a) = lt_z_irrefl a

less_asymm : (a b : Option ℤ) → less a b ≡ true → less b a ≡ false
less_asymm none none h = refl
less_asymm none (some b) h = refl
less_asymm (some a) none h = cc
less_asymm (some a) (some b) h = lt_z_asymm a b h

less-times : (a b c : Option ℤ) → less none c ≡ true → less (times b c) (times a c) ≡ less b a
less-times a b none h = cc
less-times none none (some c) h = refl
less-times none (some b) (some c) h = refl
less-times (some a) none (some c) h = refl
less-times (some a) (some b) (some c) h = lt_z-+ℤ b a c

pub powers-IsRatio : IsRatio powers powers_ratio
powers-IsRatio = record {
  mul_comm = times_comm;
  mul_assoc = times_assoc;
  mul_one = times_one;
  mul-div = times-over;
  mul_pos = times_pos;
  lt_irrefl = less_irrefl;
  lt_asymm = less_asymm;
  mul-le = λ a b c p h. less-times a b c p ∙ h;
  le_of_mul = λ a b c p h. sym (less-times a b c p) ∙ h;
  zero_of_sub = λ a. refl;
}
