-- ===== src/Console.antt =====
-- What the kernel prints: `write_color` and `kputc` of kernel/src/main.c, and kernel/src/drivers/serial.c. The
-- terminal is a copy of another project, so a call of it is a value; a byte that goes to a port is one
-- too. A string literal stands as it is, another string as its bytes.
pub mod Colours
mod Tests
use Prim.Native.String.{String}
use nyaux.Base.{
  ℕ, zero, suc, ◌+◌, ◌%◌, ◌^◌, Option, none, some, List, [], ◌∷◌, ◌++◌, ◌==◌, if◌then◌else◌,
}
use nyaux.Machine.{Mem}

-- A call of the terminal.
pub data Call : Type 0 where
  literal : String → Call
  message : List ℕ → Call
  set_text_fg_rgb set_text_bg_rgb : ℕ → Call
  set_text_fg_default set_text_bg_default : Call

-- The words of `type`, in the colour of the type, between brackets.
abbrev pub label : (rgb : ℕ) → String → List Call
label rgb words =
    literal "[ "
    ∷ set_text_fg_rgb rgb
    ∷ literal words
    ∷ set_text_fg_default
    ∷ literal " ]"
    ∷ literal " "
    ∷ []

unfoldable pub write_color : (buf : List ℕ) → (type : ℕ) → List Call
write_color buf type =
    if type == 0
    then label 0xbae1ff "INFO" ++ (message buf ∷ [])
    else if type == 1
    then label 0x00FF00 "OK" ++ (message buf ∷ [])
    else if type == 2
    then label 0xFDFD96 "WARNING" ++ (message buf ∷ [])
    else if type == 3
    then label 0xFF6961 "ERROR" ++ (message buf ∷ [])
    else if type == 4
    then label 0xFF6961 "NYA KPANIC"
      ++ (set_text_bg_rgb 0xFF6961 ∷ message buf ∷ set_text_bg_default ∷ [])
    else []

-- `outb(port, data)`, by the port and the byte.
abbrev pub outb : (port byte : ℕ) → ℕ × ℕ
outb port byte = (port % 2 ^ 16, byte % 2 ^ 8)

-- `PORT`
abbrev pub serial_port : ℕ
serial_port = 0x3F8

abbrev pub print_charserial : ℕ → ℕ × ℕ
print_charserial chara = outb serial_port chara

-- The bytes that set the port up, before the messages.
abbrev pub init_serial : List (ℕ × ℕ)
init_serial =
    outb (serial_port + 1) 0x00
    ∷ outb (serial_port + 3) 0x80
    ∷ outb (serial_port + 0) 0xC
    ∷ outb (serial_port + 1) 0x00
    ∷ outb (serial_port + 3) 0x03
    ∷ []

-- `while (*str) print_charserial(*str++);`
unfoldable pub serial_print : (fuel str : ℕ) → Mem → Option (List (ℕ × ℕ))
serial_print zero str m = none
serial_print (suc fuel) str m =
    let rest = serial_print fuel (str + 1) m in
    if m str == 0
    then some []
    else elim rest [ none ↦ none | some out ↦ some (print_charserial (m str) ∷ out) ]

-- `kputc`: a character goes to the terminal, if there is one, and to the port.
unfoldable pub kputc : (ctx ch : ℕ) → List Call × List (ℕ × ℕ)
kputc ctx ch =
    if ctx == 0 then ([], []) else (message (ch % 2 ^ 8 ∷ []) ∷ [], print_charserial ch ∷ [])
