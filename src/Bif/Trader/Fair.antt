-- ===== src/Bif/Trader/Fair.antt =====
-- A trade of two offers is fair (bif/trader.cc).
use d_barter.Base.{◌≡◌, sym, ◌∙◌, ap, subst, ◌⊎◌, inl, inr, true, false, Bool-cases}
use d_barter.Bif.Trader.{Pair, Fill, apart, theta, fill}
use d_barter.Dmath.Quantity.{Quantity, Ratio, IsRatio}

module _ (n : Quantity) (t : Ratio n) (law : IsRatio n t) where
  abbrev pub Positive : n.Q → Type 0
  Positive q = t.lt n.zero q ≡ true

  -- At most.
  abbrev pub AtMost : n.Q → n.Q → Type 0
  AtMost a b = t.lt b a ≡ false

  -- The amounts of two offers, each indexed under its own ratio.
  pub record IsIndexed (p : Pair n.Q) (ratio0 ratio1 : n.Q) : Type 0 where
    pub ask0_pos : Positive p.ask0
    pub bid0_pos : Positive p.bid0
    pub ask1_pos : Positive p.ask1
    pub bid1_pos : Positive p.bid1
    pub ratio0_bid : t.mul ratio0 p.bid0 ≡ p.ask0
    pub ratio1_bid : t.mul ratio1 p.bid1 ≡ p.ask1

  AtMost-refl : (a b : n.Q) → a ≡ b → AtMost a b
  AtMost-refl a b e = subst (AtMost a) e (law.lt_irrefl a)

  mul_interchange : (a b c d : n.Q) → t.mul (t.mul a b) (t.mul c d) ≡ t.mul (t.mul a c) (t.mul b d)
  mul_interchange a b c d =
      law.mul_assoc a b (t.mul c d)
      ∙ ap (t.mul a)
          (sym (law.mul_assoc b c d) ∙ ap (λ x. t.mul x d) (law.mul_comm b c) ∙ law.mul_assoc c b d)
      ∙ sym (law.mul_assoc a c (t.mul b d))

  -- Two ratios that are not apart: the product of what is asked is at most that of what is bid.
  asks-AtMost :
      (p : Pair n.Q) (ratio0 ratio1 : n.Q)
      → IsIndexed p ratio0 ratio1
      → apart n t ratio0 ratio1 ≡ false
      → AtMost (t.mul p.ask0 p.ask1) (t.mul p.bid0 p.bid1)
  unfolding apart
  asks-AtMost p r0 r1 i h =
      subst (AtMost (t.mul p.ask0 p.ask1)) (law.mul_comm t.one bids ∙ law.mul_one bids) (
        subst (λ x. AtMost x (t.mul t.one bids)) asks
          (law.mul-le (t.mul r0 r1) t.one bids (law.mul_pos p.bid0 p.bid1 i.bid0_pos i.bid1_pos) h))
    where
      bids : n.Q
      bids = t.mul p.bid0 p.bid1

      asks : t.mul (t.mul r0 r1) bids ≡ t.mul p.ask0 p.ask1
      asks =
          mul_interchange r0 r1 p.bid0 p.bid1
          ∙ ap (λ x. t.mul x (t.mul r1 p.bid1)) i.ratio0_bid
          ∙ ap (t.mul p.ask0) i.ratio1_bid

  -- `x * (b / c) * c` is `x * b`.
  share-mul : (x b c : n.Q) → Positive c → t.mul (t.mul x (t.div b c)) c ≡ t.mul x b
  share-mul x b c h =
      law.mul_assoc x (t.div b c) c ∙ ap (t.mul x) (law.mul_comm (t.div b c) c ∙ law.mul-div b c h)

  -- What the other side still bids covers what this side asks.
  ask-AtMost-share :
      (a b c d : n.Q) → Positive c → AtMost (t.mul a c) (t.mul d b) → AtMost a (t.mul d (t.div b c))
  ask-AtMost-share a b c d pos h =
      law.le_of_mul a (t.mul d (t.div b c)) c pos
        (subst (AtMost (t.mul a c)) (sym (share-mul d b c pos)) h)

  -- A share of less than everything is at most everything.
  share-AtMost :
      (x b c : n.Q) → Positive x → Positive c → AtMost b c → AtMost (t.mul x (t.div b c)) x
  share-AtMost x b c px pc h = law.le_of_mul (t.mul x (t.div b c)) x c pc (
      subst (λ y. AtMost y (t.mul x c)) (law.mul_comm b x ∙ sym (share-mul x b c pc))
        (subst (AtMost (t.mul b x)) (law.mul_comm c x) (law.mul-le b c x px h)))

  -- What a trade has to keep: nobody is credited more than the other side's bid gives up, no offer
  -- moves more than it asks and bids, and one of the two bids is used up.
  pub record IsFair (p : Pair n.Q) (f : Fill n.Q) : Type 0 where
    pub covered0 : AtMost f.credit0 f.debit1
    pub covered1 : AtMost f.credit1 f.debit0
    pub within0 : AtMost f.credit0 p.ask0 × AtMost f.debit0 p.bid0
    pub within1 : AtMost f.credit1 p.ask1 × AtMost f.debit1 p.bid1
    pub used_up :
        (n.is_zero (n.sub p.bid0 f.debit0) ≡ true) ⊎ (n.is_zero (n.sub p.bid1 f.debit1) ≡ true)

  -- What the shares move.
  abbrev moved : Pair n.Q → n.Q → n.Q → Fill n.Q
  moved p theta0 theta1 = record {
    credit0 = t.mul p.ask0 theta0;
    debit0 = t.mul p.bid0 theta0;
    credit1 = t.mul p.ask1 theta1;
    debit1 = t.mul p.bid1 theta1;
  }

  used : (a b : n.Q) → b ≡ a → n.is_zero (n.sub a b) ≡ true
  used a b e = ap (λ x. n.is_zero (n.sub a x)) e ∙ law.zero_of_sub a

  -- The first offer bids less than the second asks.
  first-IsFair :
      (p : Pair n.Q) (ratio0 ratio1 : n.Q)
      → IsIndexed p ratio0 ratio1
      → AtMost (t.mul p.ask0 p.ask1) (t.mul p.bid0 p.bid1)
      → t.lt p.bid0 p.ask1 ≡ true
      → IsFair p (moved p t.one (t.div p.bid0 p.ask1))
  first-IsFair p r0 r1 i m h = record {
    covered0 =
        subst (λ x. AtMost x (t.mul p.bid1 share)) (sym (law.mul_one p.ask0))
          (ask-AtMost-share p.ask0 p.bid0 p.ask1 p.bid1 i.ask1_pos
            (subst (AtMost (t.mul p.ask0 p.ask1)) (law.mul_comm p.bid0 p.bid1) m));
    covered1 = AtMost-refl _ _ (law.mul-div p.bid0 p.ask1 i.ask1_pos ∙ sym (law.mul_one p.bid0));
    within0 = (AtMost-refl _ _ (law.mul_one p.ask0), AtMost-refl _ _ (law.mul_one p.bid0));
    within1 = (
      share-AtMost p.ask1 p.bid0 p.ask1 i.ask1_pos i.ask1_pos (law.lt_asymm _ _ h),
      share-AtMost p.bid1 p.bid0 p.ask1 i.bid1_pos i.ask1_pos (law.lt_asymm _ _ h),
    );
    used_up = inl (used p.bid0 _ (law.mul_one p.bid0));
  }
    where
      share : n.Q
      share = t.div p.bid0 p.ask1

  -- The second offer bids less than the first asks.
  second-IsFair :
      (p : Pair n.Q) (ratio0 ratio1 : n.Q)
      → IsIndexed p ratio0 ratio1
      → AtMost (t.mul p.ask0 p.ask1) (t.mul p.bid0 p.bid1)
      → t.lt p.bid1 p.ask0 ≡ true
      → IsFair p (moved p (t.div p.bid1 p.ask0) t.one)
  second-IsFair p r0 r1 i m h = record {
    covered0 = AtMost-refl _ _ (law.mul-div p.bid1 p.ask0 i.ask0_pos ∙ sym (law.mul_one p.bid1));
    covered1 =
        subst (λ x. AtMost x (t.mul p.bid0 share)) (sym (law.mul_one p.ask1))
          (ask-AtMost-share p.ask1 p.bid1 p.ask0 p.bid0 i.ask0_pos
            (subst (λ x. AtMost x (t.mul p.bid0 p.bid1)) (law.mul_comm p.ask0 p.ask1) m));
    within0 = (
      share-AtMost p.ask0 p.bid1 p.ask0 i.ask0_pos i.ask0_pos (law.lt_asymm _ _ h),
      share-AtMost p.bid0 p.bid1 p.ask0 i.bid0_pos i.ask0_pos (law.lt_asymm _ _ h),
    );
    within1 = (AtMost-refl _ _ (law.mul_one p.ask1), AtMost-refl _ _ (law.mul_one p.bid1));
    used_up = inr (used p.bid1 _ (law.mul_one p.bid1));
  }
    where
      share : n.Q
      share = t.div p.bid1 p.ask0

  -- Each offer bids what the other asks, or more.
  whole-IsFair :
      (p : Pair n.Q)
      → t.lt p.bid0 p.ask1 ≡ false
      → t.lt p.bid1 p.ask0 ≡ false
      → IsFair p (moved p t.one t.one)
  whole-IsFair p h k = record {
    covered0 = scaled k;
    covered1 = scaled h;
    within0 = (AtMost-refl _ _ (law.mul_one p.ask0), AtMost-refl _ _ (law.mul_one p.bid0));
    within1 = (AtMost-refl _ _ (law.mul_one p.ask1), AtMost-refl _ _ (law.mul_one p.bid1));
    used_up = inl (used p.bid0 _ (law.mul_one p.bid0));
  }
    where
      scaled : {a b : n.Q} → AtMost a b → AtMost (t.mul a t.one) (t.mul b t.one)
      scaled {a = a} {b = b} l =
          subst (λ x. AtMost x (t.mul b t.one)) (sym (law.mul_one a))
            (subst (AtMost a) (sym (law.mul_one b)) l)

  -- If two offers with positive amounts, each indexed under its own ratio, are not refused by the test
  -- `ratio[0] * ratio[1] > 1`, then the trade is fair: each credit is at most the debit of the same
  -- denomination, no offer moves more than it asks or bids, and one of the two bids is used up.
  pub fill-IsFair :
      (p : Pair n.Q) (ratio0 ratio1 : n.Q)
      → IsIndexed p ratio0 ratio1
      → apart n t ratio0 ratio1 ≡ false
      → IsFair p (fill n t p)
  unfolding fill theta
  fill-IsFair p r0 r1 i h =
      let m = asks-AtMost p r0 r1 i h in
      elim (Bool-cases (t.lt p.bid0 p.ask1)) [
        | inl small ↦ rw small (first-IsFair p r0 r1 i m small)
        | inr large ↦ elim (Bool-cases (t.lt p.bid1 p.ask0)) [
          | inl small ↦ rw (large, small) (second-IsFair p r0 r1 i m small)
          | inr other ↦ rw (large, other) (whole-IsFair p large other)
        ]
      ]
