-- ===== src/Typing/Tests.antt =====
-- The throttle on a small bus.
use teri_chat.Prelude.{◌≡◌, refl, none, some, [], ◌∷◌, arith}
use teri_chat.Table.{find, delete}
use teri_chat.Typing.{TypingBus, Admission, new, admit, swept, publish}
use teri_chat.Typing.Throttle.{start, admitted, published, admit-throttle}

abbrev first : Admission
first = record { user_id = 1; conversation_id = 9; at = 100 }

abbrev bus : TypingBus
bus = (admit 100 1 9 new).1

admit_run : admit 100 1 9 new ≡ (some first, bus)
unfolding admit swept find delete
admit_run = refl

-- Another user is admitted, and the first publishes.
abbrev later : TypingBus
later = publish first (1 ∷ 2 ∷ []) 7 (admit 200 2 9 bus).1

admit-throttle_example : admit 300 1 9 later ≡ (none, later)
admit-throttle_example =
    admit-throttle 1 9 100 300 new first bus later admit_run
      (published first (1 ∷ 2 ∷ []) 7 (admitted 200 2 9 (ground arith) start)) (ground arith)
