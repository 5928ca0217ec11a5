-- ===== src/Apic/Scan.antt =====
-- The scan of the MADT in kernel/src/drivers/apic.c.
use nyaux.Base.{
  ℕ, zero, suc, Option, ◌++◌, ◌==◌, ◌%◌, ◌/◌, ◌^◌, if◌then◌else◌, ap, sym, ◌∙◌, ◌+◌, ◌≤◌, ◌<◌, ◌≡◌,
  some, List, [], ◌∷◌, length, arith, refl, lt→ltb, le→ltb,
}
use nyaux.Word.{word_mod, add64, add64_small}
use nyaux.Apic.{
  Apic, Ioapic, Iso, Writes, Device, Entry, interrupt_source_override, ioapic, other_entry,
  read_entry, scan_madt,
}

-- The entries `es` with their lengths stand from `offset` on and fill the table, none of them empty.
abbrev pub Filled : (ℕ → Entry × ℕ) → (length_of_entries offset : ℕ) → List (Entry × ℕ) → Type 0
Filled entry length_of_entries offset [] = length_of_entries ≤ offset
Filled entry length_of_entries offset ((e, n) ∷ es) =
    (offset < length_of_entries)
    × (entry offset ≡ (e, n))
    × (0 < n)
    × (n < 256)
    × Filled entry length_of_entries (offset + n) es

-- What the entries say of a line after `before`: the last override of the line counts.
abbrev pub override : List (Entry × ℕ) → (line : ℕ) → (before : Option Iso) → Option Iso
override [] line before = before
override ((interrupt_source_override source gsi flags, n) ∷ es) line before =
    override es line (if line == source then some (record { gsi = gsi; flags = flags }) else before)
override ((ioapic address gsi_base, n) ∷ es) line before = override es line before
override ((other_entry, n) ∷ es) line before = override es line before

-- The write that selects the version register of a controller, register 1.
abbrev pub version_selected : (hhdm address : ℕ) → ℕ × ℕ
version_selected hhdm address = (add64 address hhdm, 1)

-- The writes that the scan makes after `ws`.
abbrev pub selections : (hhdm : ℕ) → Writes → List (Entry × ℕ) → Writes
selections hhdm ws [] = ws
selections hhdm ws ((interrupt_source_override source gsi flags, n) ∷ es) = selections hhdm ws es
selections hhdm ws ((ioapic address gsi_base, n) ∷ es) =
    selections hhdm (version_selected hhdm address ∷ ws) es
selections hhdm ws ((other_entry, n) ∷ es) = selections hhdm ws es

-- Bits 16 to 23 of the version register, which is read through the window 16 bytes behind.
abbrev pub last_entry : Device → (hhdm : ℕ) → Writes → (address : ℕ) → ℕ
last_entry device hhdm ws address =
    device (version_selected hhdm address ∷ ws) (add64 ((address + 16) % 2 ^ 32) hhdm)
    % 2 ^ 32
    / 2 ^ 16
    % 256

-- The controllers of the table, with the answers of their version registers.
abbrev pub controllers : Device → (hhdm : ℕ) → Writes → List (Entry × ℕ) → List Ioapic
controllers device hhdm ws [] = []
controllers device hhdm ws ((interrupt_source_override source gsi flags, n) ∷ es) =
    controllers device hhdm ws es
controllers device hhdm ws ((ioapic address gsi_base, n) ∷ es) =
    record { address = address; gsi_base = gsi_base; max_gsi = last_entry device hhdm ws address }
    ∷ controllers device hhdm (version_selected hhdm address ∷ ws) es
controllers device hhdm ws ((other_entry, n) ∷ es) = controllers device hhdm ws es

-- The globals once the entries of the table count.
abbrev pub scanned : Device → Apic → List (Entry × ℕ) → Apic
scanned device apic es = record apic {
  ioapics = apic.ioapics ++ controllers device apic.hhdm apic.writes es;
  isos = λ k. override es k (apic.isos k);
  writes = selections apic.hhdm apic.writes es;
}

append_nil : {A : Type 0} (xs : List A) → xs ++ [] ≡ xs
append_nil [] = refl
append_nil (x ∷ xs) = ap (λ ys. x ∷ ys) (append_nil xs)

append_one : {A : Type 0} (xs ys : List A) (x : A) → (xs ++ (x ∷ [])) ++ ys ≡ xs ++ (x ∷ ys)
append_one [] ys x = refl
append_one (z ∷ xs) ys x = ap (λ zs. z ∷ zs) (append_one xs ys x)

length-append_one : {A : Type 0} (xs : List A) (x : A) → length (xs ++ (x ∷ [])) ≡ length xs + 1
length-append_one [] x = refl
length-append_one (z ∷ xs) x = ground (arith, length-append_one xs x)

-- The scan of a table that is filled with entries of 1 to 255 bytes ends. It has appended the controllers of
-- the table in their order, each with the number that its version register answered after it was selected, has
-- for each line the last override of the table, if there is one, and has made no other write than the
-- selections. There are at most 16 controllers with those before. One round for each entry and one more are
-- enough.
pub scan_madt_lem :
    (fuel : ℕ) (device : Device) (entry : ℕ → Entry × ℕ) (length_of_entries offset : ℕ)
    (apic : Apic) (es : List (Entry × ℕ))
    → length_of_entries + 256 < word_mod
    → Filled entry length_of_entries offset es
    → length apic.ioapics + length (controllers device apic.hhdm apic.writes es) ≤ 16
    → length es < fuel
    → scan_madt fuel device entry length_of_entries offset apic ≡ some (scanned device apic es)
unfolding scan_madt read_entry
scan_madt_lem zero device entry total offset apic es room filled few enough =
    absurd (omega (arith, enough))
scan_madt_lem (suc fuel) device entry total offset apic [] room filled few enough =
    rw (le→ltb offset total filled) (
      ap (λ (xs : List Ioapic). some (record apic { ioapics = xs }))
        (sym (append_nil apic.ioapics)))
scan_madt_lem (suc fuel) device entry total offset apic
      ((interrupt_source_override source gsi flags, n) ∷ es) room (more, at, pos, small, rest) few
      enough =
    let next : add64 offset (entry offset).1 ≡ offset + n =
      ap (λ (t : Entry × ℕ). add64 offset t.1) at ∙ add64_small offset n (omega arith) in
    rw (lt→ltb offset total more, at, next)
      (scan_madt_lem fuel device entry total (offset + n)
        (record apic {
          isos =
              λ k. if k == source then some (record { gsi = gsi; flags = flags }) else apic.isos k;
        })
        es room rest few (omega (arith, enough)))
scan_madt_lem (suc fuel) device entry total offset apic ((ioapic address gsi_base, n) ∷ es) room
      (more, at, pos, small, rest) few enough =
    let next : add64 offset (entry offset).1 ≡ offset + n =
      ap (λ (t : Entry × ℕ). add64 offset t.1) at ∙ add64_small offset n (omega arith) in
    let e : Ioapic = record {
      address = address;
      gsi_base = gsi_base;
      max_gsi = last_entry device apic.hhdm apic.writes address;
    } in
    let read : Apic = record apic {
      ioapics = apic.ioapics ++ (e ∷ []);
      writes = version_selected apic.hhdm address ∷ apic.writes;
    } in
    rw (lt→ltb offset total more, at, lt→ltb (length apic.ioapics) 16 (omega arith), next)
      (scan_madt_lem fuel device entry total (offset + n) read es room rest
          (omega (arith, length-append_one apic.ioapics e)) (omega (arith, enough))
        ∙ ap (λ (xs : List Ioapic). some (record (scanned device read es) { ioapics = xs }))
            (append_one apic.ioapics (controllers device apic.hhdm read.writes es) e))
scan_madt_lem (suc fuel) device entry total offset apic ((other_entry, n) ∷ es) room
      (more, at, pos, small, rest) few enough =
    let next : add64 offset (entry offset).1 ≡ offset + n =
      ap (λ (t : Entry × ℕ). add64 offset t.1) at ∙ add64_small offset n (omega arith) in
    rw (lt→ltb offset total more, at, next)
      (scan_madt_lem fuel device entry total (offset + n) apic es room rest few
        (omega (arith, enough)))
