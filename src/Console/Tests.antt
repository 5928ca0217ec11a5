-- ===== src/Console/Tests.antt =====
-- A panic is printed, and a string goes to the port.
use nyaux.Base.{◌≡◌, [], ◌∷◌, ltb, if◌then◌else◌}
use nyaux.Console.{write_color}
use nyaux.Console.Colours.{colours, plain, messages, message_colours, write_color-plain}

write_color-plain_example :
    (colours (write_color (72 ∷ 105 ∷ []) 4) plain ≡ plain)
    × (messages (write_color (72 ∷ 105 ∷ []) 4) plain
        ≡ (if ltb 4 4 then [] else (message_colours 4, (72 ∷ 105 ∷ [])) ∷ []))
write_color-plain_example = write_color-plain (72 ∷ 105 ∷ []) 4
