-- ===== src/Bom/Event/Numbers.antt =====
-- The number of an event in its two texts (bom/event.cc, bom/acct.cc).
mod Tests
use d_barter.Base.{
  ℕ, ◌-◌, ◌<◌, ◌≡◌, refl, ◌∙◌, ap, inl, inr, Bool-cases, ==_iff, Option, none, some, ◌==◌, ltb,
  if◌then◌else◌, List, [], ◌∷◌, arith,
}
use d_barter.Base.Bytes.{Bytes, strtoul}
use d_barter.Bom.Text.{decimal, format_int, NoNul, dbt_to_string-string_to_dbt}
use d_barter.Bom.Text.Numbers.{strtoul-format_int, format_int-NoNul}
use d_barter.Bom.Event.{event_entry, event_number, event_to_string, behind_word, string_to_event}

-- Every 32-bit number of an event is read back from both texts: from its entry in the index of an
-- account, and, but for 0, which is no event, from the text of the event; also from 2 ^ 31 on, where the
-- text has a sign.
pub string_to_event-event_to_string :
    (id : ℕ)
    → id < 4294967296
    → (event_number (event_entry id) ≡ id)
      × (string_to_event (event_to_string id) ≡ (if id == 0 then none else some id))
unfolding string_to_event event_to_string behind_word
string_to_event-event_to_string id lt = (
  ap strtoul (dbt_to_string-string_to_dbt (format_int id) (format_int-NoNul id))
      ∙ strtoul-format_int id lt,
  ap (λ i. if ltb i 1 then none else some i) (strtoul-format_int id lt) ∙ known id,
)
  where
    known : (id : ℕ) → (if ltb id 1 then none else some id) ≡ (if id == 0 then none else some id)
    known id = ground arith
