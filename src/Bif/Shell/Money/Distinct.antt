-- ===== src/Bif/Shell/Money/Distinct.antt =====
-- The values that a client names in `credit`, `debit` and `note_withdraw` (bif/shell.cc), after the loop
-- that reads them: the amounts are positive, and no denomination stands there twice.
use d_barter.Base.{
  ◌≡◌, ◌≢◌, refl, ap, ◌∙◌, sym, Bool, true, false, ◌||◌, Option, none, some, inl, inr, Option-cases,
  subst, List, [], ◌∷◌, All, if◌then◌else◌,
}
use d_barter.Base.Bytes.{Bytes, str_eq}
use d_barter.Bom.Value.{Value, string_to_value}
use d_barter.Dmath.Quantity.{Quantity}
use d_barter.Bif.Shell.Money.{add_to, insert_value, read_values}

module _ (n : Quantity) where
  -- Nothing later in the list has the denomination.
  abbrev pub Fresh : Bytes → List (Value n.Q) → Type 0
  Fresh d vl = All (λ w. str_eq w.denom d ≡ false) vl

  abbrev pub Distinct : List (Value n.Q) → Type 0
  Distinct [] = Unit
  Distinct (v ∷ vl) = Fresh v.denom vl × Distinct vl

  -- What `add_to` makes of a list: nothing, if the denomination is new, or a list with the same
  -- denominations.
  abbrev Added : Value n.Q → List (Value n.Q) → Option (List (Value n.Q)) → Type 0
  Added v vl none = Fresh v.denom vl
  Added v vl (some vl') = ((d : Bytes) → Fresh d vl → Fresh d vl') × (Distinct vl → Distinct vl')

  later-Added :
      (v w : Value n.Q) (vl : List (Value n.Q)) (r : Option (List (Value n.Q)))
      → str_eq w.denom v.denom ≡ false
      → Added v vl r
      → Added v (w ∷ vl) (elim r [ none ↦ none | some vl' ↦ some (w ∷ vl') ])
  later-Added v w vl none e h = (e, h)
  later-Added v w vl (some vl') e h = ((λ d f. (f.0, h.0 d f.1)), (λ k. (h.0 w.denom k.0, h.1 k.1)))

  choose-Added :
      (b : Bool) (v w : Value n.Q) (vl : List (Value n.Q)) (r : Option (List (Value n.Q)))
      → str_eq w.denom v.denom ≡ b
      → Added v vl r
      → Added v (w ∷ vl) (
          if b
          then some (record w { quant = n.add w.quant v.quant } ∷ vl)
          else elim r [ none ↦ none | some vl' ↦ some (w ∷ vl') ])
  choose-Added true v w vl r e h = ((λ d f. f), (λ k. k))
  choose-Added false v w vl r e h = later-Added v w vl r e h

  add_to-Added : (v : Value n.Q) (vl : List (Value n.Q)) → Added v vl (add_to n v vl)
  unfolding add_to
  add_to-Added v [] = tt
  add_to-Added v (w ∷ vl) =
      choose-Added (str_eq w.denom v.denom) v w vl (add_to n v vl) refl (add_to-Added v vl)

  inserted-Distinct :
      (v : Value n.Q) (vl : List (Value n.Q)) (r : Option (List (Value n.Q)))
      → Added v vl r
      → Distinct vl
      → Distinct (elim r [ none ↦ v ∷ vl | some vl' ↦ vl' ])
  inserted-Distinct v vl none h k = (h, k)
  inserted-Distinct v vl (some vl') h k = h.1 k

  insert_value-Distinct :
      (v : Value n.Q) (vl : List (Value n.Q)) → Distinct vl → Distinct (insert_value n v vl)
  unfolding insert_value
  insert_value-Distinct v vl k = inserted-Distinct v vl (add_to n v vl) (add_to-Added v vl) k

  tested : {B : Type 0} {x y : Option B} (b : Bool) → (if b then none else x) ≡ y → y ≢ none → x ≡ y
  tested true h k = absurd (k (sym h))
  tested false h k = h

  abbrev read_on : List Bytes → List (Value n.Q) → Option (Value n.Q) → Option (List (Value n.Q))
  read_on args vl none = none
  read_on args vl (some v) =
      if n.is_zero v.quant || n.is_neg v.quant
      then none
      else read_values n args (insert_value n v vl)

  -- The list that the loop over the arguments of `credit`, `debit` or `note_withdraw` makes has no
  -- denomination twice, if the list it starts from has none.
  pub read_values-Distinct :
      (args : List Bytes) (vl all : List (Value n.Q))
      → Distinct vl
      → read_values n args vl ≡ some all
      → Distinct all
  unfolding read_values
  read_values-Distinct [] vl all k h = subst Distinct (cc h) k
  read_values-Distinct (arg ∷ args) vl all k h = elim (Option-cases (string_to_value n arg)) [
    | inl e ↦ absurd (cc (ap (read_on args vl) e, h))
    | inr (v, e) ↦
        read_values-Distinct args (insert_value n v vl) all (insert_value-Distinct v vl k) (
          tested (n.is_zero v.quant || n.is_neg v.quant) (sym (ap (read_on args vl) e) ∙ h)
            (λ q. absurd (cc q)))
  ]
