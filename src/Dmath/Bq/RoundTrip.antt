-- ===== src/Dmath/Bq/RoundTrip.antt =====
-- The text of a number is read back (dmath/bq.cc).
use d_barter.Base.{
  ℕ, zero, suc, ◌-◌, ◌≤◌, ◌<◌, ◌≡◌, ◌≢◌, ◌⊎◌, refl, sym, ap, ◌∙◌, subst, Bool, true, false, Option,
  some, none, [], ◌∷◌, ◌++◌, ◌==◌, ==_iff, ltb, inl, inr, Bool-cases, if◌then◌else◌, arith, tens,
  length, All,
}
use d_barter.Base.Int.{pos}
use d_barter.Base.Bytes.{Bytes, codes}
use d_barter.Dmath.Quantity.{Quantity, IsQuantity, blanks}
use d_barter.Dmath.Bq.{
  to_decimal, padded, unsigned_text, sign, absolute, bq_to_string, read_unsigned, negated,
  string_to_bq,
}
use d_barter.Dmath.Bq.Decimal.{tens_pos, to_decimal-exact}
use d_barter.Dmath.Bq.Text.{
  IsText, IsPrinted, text-IsPrinted, append-IsPrinted, IsPrinted-ne, digits-IsText, append-IsText,
  blanks-IsText, below, no_tens,
}
use d_barter.Dmath.Bq.Forms.{
  absolute-Parts, whole_part, read-whole, read-point, read-mixed, read-quotient, Parts,
}

module _ (n : Quantity) (law : IsQuantity n) where
  open n use {Q}

  -- With no integral part a 0 is printed before the point.
  int_text : (z : ℕ) → (if ltb 0 z then n.get_str z else codes "0") ≡ n.get_str z
  int_text z = elim (Bool-cases (ltb 0 z)) [
    | inl e ↦ rw e refl
    | inr e ↦ let o : 0 ≡ z = ground (arith, e) in rw e (sym law.get_str_zero ∙ ap n.get_str o)
  ]

  point_text :
      (z : ℕ) (rest : Bytes)
      → (if ltb 0 z then n.get_str z ++ (b'.' ∷ rest) else b'0' ∷ b'.' ∷ rest)
        ≡ n.get_str z ++ (b'.' ∷ rest)
  point_text z rest = elim (Bool-cases (ltb 0 z)) [
    | inl e ↦ rw e refl
    | inr e ↦
        let o : 0 ≡ z = ground (arith, e) in
        rw e (ap (λ s. s ++ (b'.' ∷ rest)) (sym law.get_str_zero ∙ ap n.get_str o))
  ]

  -- Of a fraction that is no decimal, the three texts.
  quotient_text :
      (a : Q) (z num den : ℕ)
      → Parts n law a z num den
      → read_unsigned n (unsigned_text n z num den none) ≡ some a
  unfolding unsigned_text
  quotient_text a z num den p = elim (Bool-cases (ltb 0 num)) [
    | inl e ↦ elim (Bool-cases (ltb 0 z)) [
      | inl f ↦
          rw (e, f)
            (read-mixed n law z num den p.den_pos
              ∙ ap some (ap (n.add (n.of_int (pos z))) p.fraction ∙ sym p.joined))
      | inr f ↦
          let o : z ≡ 0 = ground (arith, f) in
          rw (e, f)
            (read-quotient n law num den
              ∙ ap some (
                  p.fraction
                  ∙ sym (law.add_zero p.rest)
                  ∙ law.add_comm p.rest n.zero
                  ∙ ap (λ x. n.add x p.rest)
                      (sym law.of_int_zero ∙ ap (λ x. n.of_int (pos x)) (sym o))
                  ∙ sym p.joined))
    ]
    | inr e ↦ rw e (
        ap (read_unsigned n) (int_text z)
        ∙ read-whole n law z
        ∙ ap some (sym (whole_part n law a z num den p (ground (arith, e)))))
  ]

  -- What is printed behind the sign is read as the number without it.
  read-unsigned_text :
      (a : Q) (z num den : ℕ) (d : Option (ℕ × ℕ))
      → Parts n law a z num den
      → to_decimal num den ≡ d
      → read_unsigned n (unsigned_text n z num den d) ≡ some a
  unfolding unsigned_text
  read-unsigned_text a z num den (some (k, zero)) p h =
      ap (read_unsigned n) (int_text z)
      ∙ read-whole n law z
      ∙ ap some (
          sym (
            whole_part n law a z num den p
              (no_tens num den k p.proper (to_decimal-exact num den k 0 p.den_pos h))))
  read-unsigned_text a z num den (some (k, suc e)) p h =
      let exact = to_decimal-exact num den k (suc e) p.den_pos h in
      ap (read_unsigned n) (point_text z (padded (suc e) (n.get_str k)))
      ∙ read-point n law z k e (below num den k (suc e) p.proper exact (tens_pos (suc e)))
      ∙ ap some (
          ap (n.add (n.of_int (pos z)))
            (law.frac_eq k (tens (suc e)) num den (tens_pos (suc e)) p.den_pos exact ∙ p.fraction)
          ∙ sym p.joined)
  read-unsigned_text a z num den none p h = quotient_text a z num den p

  nothing : (a : Q) (z num den : ℕ) → Parts n law a z num den → z ≡ 0 → num ≡ 0 → a ≡ n.zero
  nothing a z num den p e f =
      whole_part n law a z num den p f ∙ ap (λ x. n.of_int (pos x)) e ∙ law.of_int_zero

  sign-cases :
      (a : Q) (z num den : ℕ) (d : Option (ℕ × ℕ))
      → Parts n law a z num den
      → to_decimal num den ≡ d
      → (sign n true z num d ≡ b'-' ∷ []) ⊎ (a ≡ n.zero)
  unfolding sign
  sign-cases a z num den (some (k, zero)) p h = elim (Bool-cases (ltb 0 z)) [
    | inl e ↦ inl (rw e refl)
    | inr e ↦ inr (
        nothing a z num den p (ground (arith, e))
          (no_tens num den k p.proper (to_decimal-exact num den k 0 p.den_pos h)))
  ]
  sign-cases a z num den (some (k, suc e)) p h = inl refl
  sign-cases a z num den none p h = elim (Bool-cases (ltb 0 num)) [
    | inl e ↦ inl (rw e refl)
    | inr e ↦ elim (Bool-cases (ltb 0 z)) [
      | inl f ↦ inl (rw (e, f) refl)
      | inr f ↦ inr (nothing a z num den p (ground (arith, f)) (ground (arith, e)))
    ]
  ]

  number-IsText : (i : ℕ) → IsText (n.get_str i)
  number-IsText i = digits-IsText (n.get_str i) (law.get_str-IsDigits i)

  joined-IsText :
      (i c : ℕ) (s : Bytes)
      → (32 ≤ c) × (c < 58) × (c ≢ 45)
      → IsText s
      → IsText (n.get_str i ++ (c ∷ s))
  joined-IsText i c s o h = append-IsText (n.get_str i) (c ∷ s) (number-IsText i) (o, h)

  unsigned-IsText : (z num den : ℕ) (d : Option (ℕ × ℕ)) → IsText (unsigned_text n z num den d)
  unfolding unsigned_text padded
  unsigned-IsText z num den (some (k, zero)) = subst IsText (sym (int_text z)) (number-IsText z)
  unsigned-IsText z num den (some (k, suc e)) =
      subst IsText (sym (point_text z (padded (suc e) (n.get_str k)))) (
        joined-IsText z b'.' (padded (suc e) (n.get_str k))
          (omega arith, omega arith, λ e. omega (arith, e))
          (append-IsText (blanks (suc e - length (n.get_str k))) (n.get_str k)
            (blanks-IsText (suc e - length (n.get_str k))) (number-IsText k)))
  unsigned-IsText z num den none = elim (Bool-cases (ltb 0 num)) [
    | inl e ↦ elim (Bool-cases (ltb 0 z)) [
      | inl f ↦
          rw (e, f)
            (joined-IsText z b'+' (n.get_str num ++ (b'/' ∷ n.get_str den))
              (omega arith, omega arith, λ e. omega (arith, e)) quotient)
      | inr f ↦ rw (e, f) quotient
    ]
    | inr e ↦ rw e (subst IsText (sym (int_text z)) (number-IsText z))
  ]
    where
      quotient : IsText (n.get_str num ++ (b'/' ∷ n.get_str den))
      quotient =
          joined-IsText num b'/' (n.get_str den) (omega arith, omega arith, λ e. omega (arith, e))
            (number-IsText den)

  without_sign : (s : Bytes) → IsText s → string_to_bq n s ≡ read_unsigned n s
  unfolding string_to_bq
  without_sign [] h = refl
  without_sign (c ∷ s) h = elim (Bool-cases (c == 45)) [
    | inl e ↦ absurd (h.0.2 ((==_iff c 45).0 e))
    | inr e ↦ rw e refl
  ]

  -- The text of the number with the absolute value `a`.
  text_of : Bool → Q → Bytes
  text_of b a =
      let z = n.trunc a in
      let f = n.sub a (n.of_int (pos z)) in
      let d = to_decimal (n.num f) (n.den f) in
      sign n b z (n.num f) d ++ unsigned_text n z (n.num f) (n.den f) d

  positive-read : (a : Q) → n.is_neg a ≡ false → string_to_bq n (text_of false a) ≡ some a
  unfolding text_of sign
  positive-read a h =
      let z = n.trunc a in
      let f = n.sub a (n.of_int (pos z)) in
      let d = to_decimal (n.num f) (n.den f) in
      without_sign (unsigned_text n z (n.num f) (n.den f) d)
        (unsigned-IsText z (n.num f) (n.den f) d)
      ∙ read-unsigned_text a z (n.num f) (n.den f) d (absolute-Parts n law a h) refl

  negative-read :
      (a : Q) → n.is_neg a ≡ false → a ≢ n.zero → string_to_bq n (text_of true a) ≡ some (n.neg a)
  unfolding text_of string_to_bq negated
  negative-read a h ne =
      let z = n.trunc a in
      let f = n.sub a (n.of_int (pos z)) in
      let d = to_decimal (n.num f) (n.den f) in
      elim (sign-cases a z (n.num f) (n.den f) d (absolute-Parts n law a h) refl) [
        | inl e ↦
            ap (λ s. string_to_bq n (s ++ unsigned_text n z (n.num f) (n.den f) d)) e
            ∙ ap (negated n)
                (read-unsigned_text a z (n.num f) (n.den f) d (absolute-Parts n law a h) refl)
        | inr e ↦ absurd (ne e)
      ]

  text_of-lem :
      (q : Q) (b : Bool) → n.is_neg q ≡ b → bq_to_string n q ≡ text_of b (if b then n.neg q else q)
  unfolding bq_to_string absolute text_of
  text_of-lem q b e = ap (λ b. text_of b (if b then n.neg q else q)) e

  -- The text of every number is read back as the number, blanks and all.
  pub string_to_bq-bq_to_string : (q : Q) → string_to_bq n (bq_to_string n q) ≡ some q
  string_to_bq-bq_to_string q = elim (Bool-cases (n.is_neg q)) [
    | inl e ↦
        ap (string_to_bq n) (text_of-lem q true e)
        ∙ negative-read (n.neg q) (law.neg_nonneg q e) (not_zero e)
        ∙ ap some (law.neg-neg q)
    | inr e ↦ ap (string_to_bq n) (text_of-lem q false e) ∙ positive-read q e
  ]
    where
      not_zero : n.is_neg q ≡ true → n.neg q ≢ n.zero
      not_zero e h =
          let z : q ≡ n.zero = sym (law.neg-neg q) ∙ ap n.neg h ∙ law.neg_zero in
          cc (sym e ∙ ap n.is_neg z ∙ law.zero_nonneg)

  minus_if : (b : Bool) → IsPrinted (if b then b'-' ∷ [] else [])
  minus_if true = ((omega arith, omega arith), tt)
  minus_if false = tt

  sign-IsPrinted : (b : Bool) (z num : ℕ) (d : Option (ℕ × ℕ)) → IsPrinted (sign n b z num d)
  unfolding sign
  sign-IsPrinted false z num d = tt
  sign-IsPrinted true z num (some (k, zero)) = minus_if (ltb 0 z)
  sign-IsPrinted true z num (some (k, suc e)) = ((omega arith, omega arith), tt)
  sign-IsPrinted true z num none = elim (Bool-cases (ltb 0 num)) [
    | inl e ↦ rw e ((omega arith, omega arith), tt)
    | inr e ↦ rw e (minus_if (ltb 0 z))
  ]

  text_of-IsPrinted : (b : Bool) (a : Q) → IsPrinted (text_of b a)
  unfolding text_of
  text_of-IsPrinted b a =
      let z = n.trunc a in
      let f = n.sub a (n.of_int (pos z)) in
      let d = to_decimal (n.num f) (n.den f) in
      append-IsPrinted (sign n b z (n.num f) d) (unsigned_text n z (n.num f) (n.den f) d)
        (sign-IsPrinted b z (n.num f) d)
        (text-IsPrinted _ (unsigned-IsText z (n.num f) (n.den f) d))

  -- The bytes of a text, the sign included.
  pub bq_to_string-IsPrinted : (q : Q) → IsPrinted (bq_to_string n q)
  bq_to_string-IsPrinted q =
      subst IsPrinted (sym (text_of-lem q (n.is_neg q) refl)) (text_of-IsPrinted (n.is_neg q) _)

  pub bq_to_string-NoNul : (q : Q) → All (λ c. c ≢ 0) (bq_to_string n q)
  bq_to_string-NoNul q =
      IsPrinted-ne 0 (bq_to_string n q) (inl (omega arith)) (bq_to_string-IsPrinted q)
