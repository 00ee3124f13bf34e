-- ===== src/Bom/Event/Numbers/Tests.antt =====
-- The number of an event from 2 ^ 31 on.
use d_barter.Base.{◌≡◌, some, arith}
use d_barter.Bom.Event.{event_entry, event_number, event_to_string, string_to_event}
use d_barter.Bom.Event.Numbers.{string_to_event-event_to_string}

string_to_event-event_to_string_example :
    (event_number (event_entry 4294967295) ≡ 4294967295)
    × (string_to_event (event_to_string 4294967295) ≡ some 4294967295)
string_to_event-event_to_string_example = string_to_event-event_to_string 4294967295 (omega arith)
