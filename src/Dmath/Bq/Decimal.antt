-- ===== src/Dmath/Bq/Decimal.antt =====
-- What `_to_decimal` finds (dmath/bq.cc).
use native.Mathlib.Nat.{div-add-mod', div-lt_self, eq_of_mul-eq-mul_right}
use d_barter.Base.{
  ℕ, zero, suc, ◌+◌, ◌*◌, ◌/◌, ◌%◌, ◌≤◌, ◌<◌, ◌≡◌, refl, sym, ap, ◌∙◌, Bool, false, Option, some,
  none, ◌==◌, ==_iff, inl, inr, Bool-cases, if◌then◌else◌, arith, tens,
}
use d_barter.Dmath.Bq.{divide_out, to_decimal}

pub tens-+ : (a b : ℕ) → tens (a + b) ≡ tens a * tens b
tens-+ zero b = let e : 0 + b ≡ b = omega arith in ap tens e ∙ omega arith
tens-+ (suc a) b =
    let e : suc a + b ≡ suc (a + b) = omega arith in ap tens e ∙ omega (arith, tens-+ a b)

pub tens_pos : (e : ℕ) → 0 < tens e
tens_pos zero = omega arith
tens_pos (suc e) = omega (arith, tens_pos e)

-- What is left of a fraction: the same number, with so many tens taken into the numerator.
pub record Scaled (den num exp : ℕ) (r : ℕ × (ℕ × ℕ)) : Type 0 where
  pub rounds : ℕ
  pub counted : r.1.1 ≡ exp + rounds
  pub scaled : r.1.0 * den ≡ num * (tens rounds * r.0)
  pub positive : 0 < r.0

whole : (den p : ℕ) → den % p ≡ 0 → den / p * p ≡ den
whole den p h = omega (arith, div-add-mod' den p, h)

round-Scaled :
    (p m den num exp : ℕ) (r : ℕ × (ℕ × ℕ))
    → p * m ≡ 10
    → den / p * p ≡ den
    → Scaled (den / p) (num * m) (suc exp) r
    → Scaled den num exp r
round-Scaled p m den num exp r ten w s = record {
  rounds = suc s.rounds;
  counted = omega (arith, s.counted);
  scaled =
      sym (ap (λ x. r.1.0 * x) w)
      ∙ omega (arith, ap (λ x. x * p) s.scaled, ap (λ x. num * (tens s.rounds * r.0) * x) ten);
  positive = s.positive;
}

quotient_pos : (den p : ℕ) → 0 < den → den / p * p ≡ den → 0 < den / p
quotient_pos den p h w = elim (Bool-cases (den / p == 0)) [
  | inl e ↦ omega (arith, h, w, ap (λ x. x * p) ((==_iff (den / p) 0).0 e))
  | inr e ↦ ground (arith, e)
]

divide_out-Scaled :
    (p m fuel den num exp : ℕ)
    → p * m ≡ 10
    → 0 < den
    → Scaled den num exp (divide_out p m fuel den num exp)
unfolding divide_out
divide_out-Scaled p m zero den num exp ten h = record {
  rounds = 0;
  counted = omega arith;
  scaled = omega arith;
  positive = h;
}
divide_out-Scaled p m (suc fuel) den num exp ten h = elim (Bool-cases (den % p == 0)) [
  | inl e ↦
      let w = whole den p ((==_iff (den % p) 0).0 e) in
      rw e (
        round-Scaled p m den num exp (divide_out p m fuel (den / p) (num * m) (suc exp)) ten w
          (divide_out-Scaled p m fuel (den / p) (num * m) (suc exp) ten (quotient_pos den p h w)))
  | inr e ↦ rw e (record { rounds = 0; counted = omega arith; scaled = omega arith; positive = h })
]

-- A loop ends: the fuel is enough.
pub divide_out-ends :
    (p m fuel den num exp : ℕ)
    → 2 ≤ p
    → 0 < den
    → den ≤ fuel
    → ((divide_out p m fuel den num exp).0 % p == 0) ≡ false
unfolding divide_out
divide_out-ends p m zero den num exp two h le = absurd (omega (arith, h, le))
divide_out-ends p m (suc fuel) den num exp two h le = elim (Bool-cases (den % p == 0)) [
  | inl e ↦
      let w = whole den p ((==_iff (den % p) 0).0 e) in
      rw e (
        divide_out-ends p m fuel (den / p) (num * m) (suc exp) two (quotient_pos den p h w) (
          omega (arith, le, div-lt_self {n = den} {k = p} (omega (arith, h)) (omega (arith, two)))))
  | inr e ↦ rw e e
]

abbrev choose : Bool → ℕ × (ℕ × ℕ) → Option (ℕ × ℕ)
choose b r = if b then some r.1 else none

abbrev chosen : ℕ × (ℕ × ℕ) → Option (ℕ × ℕ)
chosen r = choose (r.0 == 1) r

pair-injective : {x : ℕ × ℕ} {k e : ℕ} → some x ≡ some (k, e) → (x.0 ≡ k) × (x.1 ≡ e)
pair-injective p = let q = some-injective p in (ap (λ x. x.0) q, ap (λ x. x.1) q)
  where
    some-injective : {x y : ℕ × ℕ} → some x ≡ some y → x ≡ y
    some-injective p = cc

powers : (f a b e : ℕ) → f ≡ 0 + a → f + b ≡ e → tens e ≡ tens a * tens b
powers f a b e p q = let s : e ≡ a + b = omega (arith, p, q) in ap tens s ∙ tens-+ a b

-- The digits that `_to_decimal` finds behind the point are those of the fraction.
pub to_decimal-exact :
    (num den k e : ℕ) → 0 < den → to_decimal num den ≡ some (k, e) → k * den ≡ num * tens e
unfolding to_decimal
to_decimal-exact num den k e h q =
    let r = divide_out 5 2 den den num 0 in
    let s = divide_out-Scaled 5 2 den den num 0 refl h in
    let t = divide_out-Scaled 2 5 den r.0 r.1.0 r.1.1 refl s.positive in
    joined r (divide_out 2 5 den r.0 r.1.0 r.1.1) s t q
  where
    joined :
        (r r' : ℕ × (ℕ × ℕ))
        → Scaled den num 0 r
        → Scaled r.0 r.1.0 r.1.1 r'
        → chosen r' ≡ some (k, e)
        → k * den ≡ num * tens e
    joined r r' s t q = elim (Bool-cases (r'.0 == 1)) [
      | inl o ↦
          let one = (==_iff r'.0 1).0 o in
          let same = pair-injective (sym (ap (λ b. choose b r') o) ∙ q) in
          let digits : r.1.1 + t.rounds ≡ e = sym t.counted ∙ same.1 in
          let last : k * r.0 ≡ r.1.0 * (tens t.rounds * 1) =
            sym (ap (λ x. x * r.0) same.0) ∙ t.scaled ∙ ap (λ x. r.1.0 * (tens t.rounds * x)) one in
          eq_of_mul-eq-mul_right r.0 s.positive (k * den) (num * tens e) (
            omega (
              arith,
              ap (λ x. x * den) last,
              ap (λ x. x * tens t.rounds) s.scaled,
              ap (λ x. num * (x * r.0)) (powers r.1.1 s.rounds t.rounds e s.counted digits),
            ))
      | inr o ↦ absurd (cc (sym (ap (λ b. choose b r') o) ∙ q))
    ]
