-- ===== src/Dmath/Bq/Forms.antt =====
-- What `string_to_bq` reads from each of the four forms of a text (dmath/bq.cc).
use d_barter.Base.{
  ℕ, zero, suc, ◌-◌, ◌*◌, ◌≤◌, ◌<◌, ◌≡◌, ◌≢◌, ◌⊎◌, refl, sym, ap, ◌∙◌, false, some, none, ◌∷◌, ◌++◌,
  inl, arith, tens, length, All,
}
use d_barter.Base.Int.{ℤ, pos}
use d_barter.Base.Bytes.{Bytes, break_at, break_at-append}
use d_barter.Dmath.Quantity.{Quantity, IsQuantity}
use d_barter.Dmath.Bq.{
  padded, or_zero, shift, read_point, unless_zero, read_mixed, read_quotient, read_unsigned,
}
use d_barter.Dmath.Bq.Text.{break_at-none, digits-ne, append-ne, length-padded}

module _ (n : Quantity) (law : IsQuantity n) where
  open n use {Q}

  -- The integral part and the fraction of a number that is not negative.
  pub record Parts (a : Q) (z num den : ℕ) : Type 0 where
    pub rest : Q
    pub joined : a ≡ n.add (n.of_int (pos z)) rest
    pub fraction : n.frac (pos num) (pos den) ≡ rest
    pub den_pos : 0 < den
    pub proper : num < den

  pub absolute-Parts :
      (a : Q)
      → n.is_neg a ≡ false
      → let f = n.sub a (n.of_int (pos (n.trunc a))) in Parts a (n.trunc a) (n.num f) (n.den f)
  absolute-Parts a h =
      let (p, lt) = law.trunc_part a h in
      let f = n.sub a (n.of_int (pos (n.trunc a))) in
      record {
        rest = f;
        joined = sym (law.add-sub a (n.of_int (pos (n.trunc a))));
        fraction = law.frac-num-den f p;
        den_pos = law.den_pos f p;
        proper = lt;
      }

  shift-frac :
      (i a b : ℕ) → 0 < b → shift n i (n.frac (pos a) (pos b)) ≡ n.frac (pos a) (pos (b * tens i))
  unfolding shift
  shift-frac zero a b h = let e : b ≡ b * 1 = omega arith in ap (λ x. n.frac (pos a) (pos x)) e
  shift-frac (suc i) a b h =
      ap (shift n i) (law.div_ten-frac a b h)
      ∙ shift-frac i a (b * 10) (omega (arith, h))
      ∙ (let e : b * 10 * tens i ≡ b * (tens i * 10) = omega arith in
          ap (λ x. n.frac (pos a) (pos x)) e)

  -- A fraction that is 0 leaves the integral part.
  pub whole_part : (a : Q) (z num den : ℕ) → Parts a z num den → num ≡ 0 → a ≡ n.of_int (pos z)
  whole_part a z num den p e =
      p.joined
      ∙ ap (n.add (n.of_int (pos z))) (
          sym p.fraction
          ∙ law.frac_eq num den 0 1 p.den_pos (omega arith) (omega (arith, ap (λ x. x * 1) e))
          ∙ sym (law.of_int-frac 0)
          ∙ law.of_int_zero)
      ∙ law.add_zero (n.of_int (pos z))

  get_str-ne : (d i : ℕ) → (d < 48) ⊎ (58 ≤ d) → All (λ c. c ≢ d) (n.get_str i)
  get_str-ne d i o = digits-ne d (n.get_str i) o (law.get_str-IsDigits i)

  set_str-get : (i : ℕ) → n.set_str (n.get_str i) ≡ some (pos i)
  set_str-get i = law.set_str-get_str 0 i

  -- Which of the four forms a text has.
  as_point :
      (s z p : Bytes) → break_at b'.' s ≡ some (z, p) → read_unsigned n s ≡ some (read_point n z p)
  unfolding read_unsigned
  as_point s z p h = rw (h, read_unsigned) refl

  as_mixed :
      (s z p : Bytes)
      → break_at b'.' s ≡ none
      → break_at b'+' s ≡ some (z, p)
      → read_unsigned n s ≡ read_mixed n z p
  unfolding read_unsigned
  as_mixed s z p a b = rw (a, read_unsigned) (rw (b, read_unsigned) refl)

  as_quotient :
      (s z p : Bytes)
      → break_at b'.' s ≡ none
      → break_at b'+' s ≡ none
      → break_at b'/' s ≡ some (z, p)
      → read_unsigned n s ≡ read_quotient n z p
  unfolding read_unsigned
  as_quotient s z p a b c =
      rw (a, read_unsigned) (rw (b, read_unsigned) (rw (c, read_unsigned) refl))

  as_whole :
      (s : Bytes) (z : ℤ)
      → break_at b'.' s ≡ none
      → break_at b'+' s ≡ none
      → break_at b'/' s ≡ none
      → n.set_str s ≡ some z
      → read_unsigned n s ≡ some (n.of_int z)
  unfolding read_unsigned
  as_whole s z a b c d =
      rw (a, read_unsigned)
        (rw (b, read_unsigned) (rw (c, read_unsigned) (rw (d, read_unsigned) refl)))

  pub read-whole : (z : ℕ) → read_unsigned n (n.get_str z) ≡ some (n.of_int (pos z))
  read-whole z =
      as_whole (n.get_str z) (pos z)
        (break_at-none b'.' (n.get_str z) (get_str-ne b'.' z (inl (omega arith))))
        (break_at-none b'+' (n.get_str z) (get_str-ne b'+' z (inl (omega arith))))
        (break_at-none b'/' (n.get_str z) (get_str-ne b'/' z (inl (omega arith)))) (set_str-get z)

  behind_point : Bytes → Q
  behind_point p = shift n (length p) (n.of_int (or_zero n (n.set_str p)))

  read_padded :
      (k e : ℕ)
      → k < tens (suc e)
      → behind_point (padded (suc e) (n.get_str k)) ≡ n.frac (pos k) (pos (tens (suc e)))
  unfolding behind_point or_zero padded
  read_padded k e lt =
      let text = padded (suc e) (n.get_str k) in
      ap (λ x. shift n (length text) (n.of_int (or_zero n x)))
        (law.set_str-get_str (suc e - length (n.get_str k)) k)
      ∙ ap (λ i. shift n i (n.of_int (pos k)))
          (length-padded (suc e) (n.get_str k) (law.length-get_str-le k (suc e) (omega arith) lt))
      ∙ ap (shift n (suc e)) (law.of_int-frac k)
      ∙ shift-frac (suc e) k 1 (omega arith)
      ∙ (let one : 1 * tens (suc e) ≡ tens (suc e) = omega arith in
          ap (λ x. n.frac (pos k) (pos x)) one)

  pub read-point :
      (z k e : ℕ)
      → k < tens (suc e)
      → read_unsigned n (n.get_str z ++ (b'.' ∷ padded (suc e) (n.get_str k)))
        ≡ some (n.add (n.of_int (pos z)) (n.frac (pos k) (pos (tens (suc e)))))
  unfolding read_point or_zero behind_point
  read-point z k e lt =
      let text = padded (suc e) (n.get_str k) in
      as_point (n.get_str z ++ (b'.' ∷ text)) (n.get_str z) text
        (break_at-append b'.' (n.get_str z) text (get_str-ne b'.' z (inl (omega arith))))
      ∙ ap (λ x. some (n.add (n.of_int (or_zero n x)) (behind_point text))) (set_str-get z)
      ∙ ap (λ x. some (n.add (n.of_int (pos z)) x)) (read_padded k e lt)

  pub read-mixed :
      (z num den : ℕ)
      → 0 < den
      → read_unsigned n (n.get_str z ++ (b'+' ∷ (n.get_str num ++ (b'/' ∷ n.get_str den))))
        ≡ some (n.add (n.of_int (pos z)) (n.frac (pos num) (pos den)))
  unfolding read_mixed unless_zero
  read-mixed z num zero h = absurd (omega (arith, h))
  read-mixed z num (suc den) h =
      let tail = n.get_str num ++ (b'/' ∷ n.get_str (suc den)) in
      as_mixed (n.get_str z ++ (b'+' ∷ tail)) (n.get_str z) tail
        (break_at-none b'.' (n.get_str z ++ (b'+' ∷ tail)) (
          append-ne b'.' (n.get_str z) (b'+' ∷ tail) (get_str-ne b'.' z (inl (omega arith))) (
            (λ e. omega (arith, e)),
            append-ne b'.' (n.get_str num) (b'/' ∷ n.get_str (suc den))
                (get_str-ne b'.' num (inl (omega arith)))
                ((λ e. omega (arith, e)), get_str-ne b'.' (suc den) (inl (omega arith))),
          )))
        (break_at-append b'+' (n.get_str z) tail (get_str-ne b'+' z (inl (omega arith))))
      ∙ rw
          (
            break_at-append b'/' (n.get_str num) (n.get_str (suc den))
                (get_str-ne b'/' num (inl (omega arith))),
            read_mixed,
          )
          (rw (set_str-get (suc den), read_mixed)
            (rw (set_str-get z, read_mixed) (rw (set_str-get num, read_mixed) refl)))

  pub read-quotient :
      (num den : ℕ)
      → read_unsigned n (n.get_str num ++ (b'/' ∷ n.get_str den))
        ≡ some (n.frac (pos num) (pos den))
  unfolding read_quotient
  read-quotient num den =
      let text = n.get_str num ++ (b'/' ∷ n.get_str den) in
      as_quotient text (n.get_str num) (n.get_str den)
        (break_at-none b'.' text (no b'.' (inl (omega arith)) (λ e. omega (arith, e))))
        (break_at-none b'+' text (no b'+' (inl (omega arith)) (λ e. omega (arith, e))))
        (break_at-append b'/' (n.get_str num) (n.get_str den)
          (get_str-ne b'/' num (inl (omega arith))))
      ∙ rw (set_str-get num, read_quotient) (rw (set_str-get den, read_quotient) refl)
    where
      no :
          (d : ℕ)
          → (d < 48) ⊎ (58 ≤ d)
          → b'/' ≢ d
          → All (λ c. c ≢ d) (n.get_str num ++ (b'/' ∷ n.get_str den))
      no d o ne =
          append-ne d (n.get_str num) (b'/' ∷ n.get_str den) (get_str-ne d num o)
            (ne, get_str-ne d den o)
