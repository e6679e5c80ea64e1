-- ===== src/Can/Tests.antt =====
-- Tests of the signal codec of src/can_frame.h, and its theorems at concrete payloads.
use supercombo_k.Base.{ℕ, ◌≡◌, refl, inr, List, [], ◌∷◌, All, arith}
use supercombo_k.Can.Signal.{get_signal_le, set_signal_le, IsPayload}
use supercombo_k.Can.Signal.Laws.{get_signal_le-set_signal_le, get_signal_le-set_signal_le_ne}
use supercombo_k.Can.Layout.{Field, set_fields, set_fields-IsRead, IsRead}

abbrev bytes : List ℕ
bytes = 0x12 ∷ 0x34 ∷ 0x56 ∷ 0x78 ∷ 0x9a ∷ 0xbc ∷ 0xde ∷ 0xf0 ∷ []

bytes-IsPayload : IsPayload bytes
bytes-IsPayload = (refl, omega arith)

get_signal_le-set_signal_le_example : get_signal_le (set_signal_le bytes 12 10 0x7ff) 12 10 ≡ 0x3ff
get_signal_le-set_signal_le_example =
    get_signal_le-set_signal_le bytes 12 10 0x7ff bytes-IsPayload (omega arith) (omega arith)

get_signal_le-set_signal_le_ne_example :
    get_signal_le (set_signal_le bytes 12 10 0x7ff) 22 8 ≡ get_signal_le bytes 22 8
get_signal_le-set_signal_le_ne_example =
    get_signal_le-set_signal_le_ne bytes 12 10 0x7ff bytes-IsPayload (omega arith) 22 8
      (inr (omega arith))

abbrev fields : List Field
fields =
    record { start = 3; width = 7; raw = 100 }
    ∷ record { start = 40; width = 12; raw = 5000 }
    ∷ record { start = 10; width = 6; raw = 17 }
    ∷ []

set_fields-IsRead_example : All (IsRead (set_fields bytes fields)) fields
set_fields-IsRead_example = set_fields-IsRead bytes fields bytes-IsPayload refl
