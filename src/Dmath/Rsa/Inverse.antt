-- ===== src/Dmath/Rsa/Inverse.antt =====
-- `rsa_crypt` ends for every modulus of 2 or more, and two keys that are inverse on the digits are inverse
-- on messages of every length (dmath/rsa.cc).
use native.Mathlib.Nat.{
  mul-le-mul_left, div-lt_self, div-add-mod', mul-add-div_right, mul-add-mod_self_right,
  mod-eq_of_lt, div-eq_of_lt, mod-lt,
}
use d_barter.Base.{
  ℕ, zero, suc, ◌+◌, ◌*◌, ◌/◌, ◌%◌, ◌≤◌, ◌<◌, ◌≡◌, ◌≢◌, refl, sym, ◌∙◌, ap, inl, inr, false, some,
  List, [], ◌∷◌, ◌==◌, if◌then◌else◌, arith, Bool-cases,
}
use d_barter.Dmath.Rsa.{Powm, split, join, rsa_crypt}

-- What the two loops compute, on their digits from the last to the first.
pub crypted : {K : Type 0} → Powm K → K → ℕ → ℕ → ℕ → ℕ
crypted powm ke km zero n = 0
crypted powm ke km (suc fuel) n =
    let rest = crypted powm ke km fuel (n / km) in
    if n == 0 then 0 else rest * km + powm (n % km) ke km

div-le_pred : (n km fuel : ℕ) → n ≢ 0 → 2 ≤ km → n ≤ suc fuel → n / km ≤ fuel
div-le_pred n km fuel ne two le =
    omega (arith, le, div-lt_self {n = n} {k = km} (omega (arith, ne)) (omega (arith, two)))

-- Enough rounds: the loops end, and the digits are put together in the order of the message.
split-crypted :
    {K : Type 0} (powm : Powm K) (ke : K) (km fuel n : ℕ) (l : List ℕ)
    → 2 ≤ km
    → n ≤ fuel
    → (r : List ℕ) × (split powm ke km fuel n l ≡ some r)
      × (join km 0 r ≡ join km (crypted powm ke km fuel n) l)
unfolding split join crypted
split-crypted powm ke km zero n l two le = (l, ground (arith, le), refl)
split-crypted powm ke km (suc fuel) n l two le = elim (Bool-cases (n == 0)) [
  | inl z ↦ (l, rw z refl, rw z refl)
  | inr nz ↦
      let (r, e, j) =
        split-crypted powm ke km fuel (n / km) (powm (n % km) ke km ∷ l) two
          (div-le_pred n km fuel (λ q. ground (arith, nz, q)) two le) in
      (r, rw nz e, rw nz j)
]

rsa_crypt-crypted :
    {K : Type 0} (powm : Powm K) (n : ℕ) (ke : K) (km : ℕ)
    → 2 ≤ km
    → rsa_crypt powm n ke km ≡ some (crypted powm ke km n n)
unfolding rsa_crypt join
rsa_crypt-crypted powm n ke km two =
    let (r, e, j) = split-crypted powm ke km n n [] two (omega arith) in
    rw (e, rsa_crypt) (ap some j)

-- Two keys that undo each other on the digits of a base.
pub record IsKeyPair {K : Type 0} (powm : Powm K) (ke kd : K) (km : ℕ) : Type 0 where
  pub small : (a : ℕ) → a < km → powm a ke km < km
  pub undone : (a : ℕ) → a < km → powm (powm a ke km) kd km ≡ a
  pub of_zero : powm 0 kd km ≡ 0

crypted_zero : {K : Type 0} (powm : Powm K) (ke : K) (km fuel : ℕ) → crypted powm ke km fuel 0 ≡ 0
unfolding crypted
crypted_zero powm ke km zero = refl
crypted_zero powm ke km (suc fuel) = refl

-- A digit in front of another number, and the rounds that are left.
crypted-digit :
    {K : Type 0} (powm : Powm K) (kd : K) (km fuel x p : ℕ)
    → 2 ≤ km
    → p < km
    → x * km + p ≢ 0
    → x * km + p ≤ suc fuel
    → (crypted powm kd km (suc fuel) (x * km + p) ≡ crypted powm kd km fuel x * km + powm p kd km)
      × (x ≤ fuel)
unfolding crypted
crypted-digit powm kd km fuel x p two lt ne le = (
  rw (not_zero) (
      rw
        (
          mul-add-div_right {m = km} (omega (arith, two)) x p,
          mul-add-mod_self_right x km p,
          div-eq_of_lt {n = p} {m = km} lt,
          mod-eq_of_lt {n = p} {m = km} lt,
        )
        (ap (λ y. crypted powm kd km fuel y * km + powm p kd km) (omega arith))),
  omega (arith, mul-le-mul_left {m = 2} {n = km} x two, ne, le),
)
  where
    not_zero : ((x * km + p) == 0) ≡ false
    not_zero = elim (Bool-cases ((x * km + p) == 0)) [
      | inl z ↦ absurd (ne (ground (arith, z)))
      | inr z ↦ z
    ]

crypted-inverse :
    {K : Type 0} (powm : Powm K) (ke kd : K) (km : ℕ)
    → IsKeyPair powm ke kd km
    → 2 ≤ km
    → (f g n : ℕ) → n ≤ f
    → crypted powm ke km f n ≤ g
    → crypted powm kd km g (crypted powm ke km f n) ≡ n
unfolding crypted
crypted-inverse powm ke kd km pair two zero g n le room =
    crypted_zero powm kd km g ∙ omega (arith, le)
crypted-inverse powm ke kd km pair two (suc f) g n le room = elim (Bool-cases (n == 0)) [
  | inl z ↦ rw z (crypted_zero powm kd km g ∙ ground (arith, z))
  | inr nz ↦ rw nz (
      front g
        (λ g' r.
          crypted-inverse powm ke kd km pair two f g' (n / km)
            (div-le_pred n km f (λ q. ground (arith, nz, q)) two le) r)
        (rw nz at room) (λ q. ground (arith, nz, q)))
]
  where
    x : ℕ
    x = crypted powm ke km f (n / km)

    p : ℕ
    p = powm (n % km) ke km

    digit : n % km < km
    digit = mod-lt n {m = km} (omega (arith, two))

    -- The number is made of its digit and the rest, and 0 only for 0.
    whole : (q : ℕ) → q ≡ n / km → q * km + powm p kd km ≡ n
    whole q e =
        ap (λ y. y * km + powm p kd km) e
        ∙ ap (λ y. n / km * km + y) (pair.undone (n % km) digit)
        ∙ div-add-mod' n km

    front :
        (g : ℕ)
        → ((g' : ℕ) → x ≤ g' → crypted powm kd km g' x ≡ n / km)
        → x * km + p ≤ g
        → n ≢ 0
        → crypted powm kd km g (x * km + p) ≡ n
    front g ih le ne = elim (Bool-cases ((x * km + p) == 0)) [
      | inl z ↦ absurd (ne (nothing ih (ground (arith, z))))
      | inr z ↦ more g ih le (λ q. ground (arith, z, q))
    ]
      where
        nothing : ((g' : ℕ) → x ≤ g' → crypted powm kd km g' x ≡ n / km) → x * km + p ≡ 0 → n ≡ 0
        nothing ih z = zero_of ih (no_x z) (omega (arith, z))
          where
            no_x : x * km + p ≡ 0 → x ≡ 0
            no_x z = omega (arith, z, mul-le-mul_left {m = 2} {n = km} x two)

            zero_of : ((g' : ℕ) → x ≤ g' → crypted powm kd km g' x ≡ n / km) → x ≡ 0 → p ≡ 0 → n ≡ 0
            zero_of ih ex ep = omega (
              arith,
              whole 0 (
                  sym (crypted_zero powm kd km x)
                  ∙ ap (crypted powm kd km x) (sym ex)
                  ∙ ih x (omega arith)),
              ap (λ y. powm y kd km) ep ∙ pair.of_zero,
            )

        more :
            (g : ℕ)
            → ((g' : ℕ) → x ≤ g' → crypted powm kd km g' x ≡ n / km)
            → x * km + p ≤ g
            → x * km + p ≢ 0
            → crypted powm kd km g (x * km + p) ≡ n
        more zero ih le ne = absurd (ne (omega (arith, le)))
        more (suc g') ih le ne =
            let (e, r) = crypted-digit powm kd km g' x p two (pair.small (n % km) digit) ne le in
            e ∙ whole (crypted powm kd km g' x) (ih g' r)

-- With a modulus of 2 or more, and two keys that are inverse to each other on the numbers below it,
-- decrypting an encrypted message of any size gives the message back; both runs end.
pub rsa_crypt-rsa_crypt :
    {K : Type 0} (powm : Powm K) (ke kd : K) (km n : ℕ)
    → 2 ≤ km
    → IsKeyPair powm ke kd km
    → (c : ℕ) × (rsa_crypt powm n ke km ≡ some c) × (rsa_crypt powm c kd km ≡ some n)
rsa_crypt-rsa_crypt powm ke kd km n two pair =
    let c = crypted powm ke km n n in
    (
      c,
      rsa_crypt-crypted powm n ke km two,
      rsa_crypt-crypted powm c kd km two
          ∙ ap some (crypted-inverse powm ke kd km pair two n c n (omega arith) (omega arith)),
    )
