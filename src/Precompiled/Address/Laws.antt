-- ===== src/Precompiled/Address/Laws.antt =====
-- When an address is accepted, and where its lines are printed.
use notifications_template_p.Prelude.{ℕ, ◌-◌, ◌*◌, ◌≤◌, ◌≡◌, ◌↔◌, true, false, none, arith}
use notifications_template_p.Prelude.Int.{ℤ, pos, ◌+ℤ◌, ◌-ℤ◌, ◌≤ℤ◌}
use notifications_template_p.Python.Text.{Text, count}
use notifications_template_p.External.{Libraries, PostalAddress}
use notifications_template_p.Geometry.Layout.{
  a4_height, address_top_from_top_of_page, address_bottom_from_top_of_page,
}
use notifications_template_p.Geometry.Canvas.{Lettering}
use notifications_template_p.Precompiled.Address.{error_code, address_text}

-- The height of line `i` of a text, from 0, on the page: each line stands one leading lower.
abbrev pub baseline : Lettering → ℕ → ℤ
baseline l i = (l.y -ℤ pos (i * l.leading)) +ℤ pos l.rise

-- Every line of an address with at most seven newlines is printed inside the address window: its baseline is not below the foot of the window, and the font's height above it is not above the top.
pub address_text-in_window :
    (address : Text) (i : ℕ)
    → count 10 address ≤ 7
    → i ≤ count 10 address
    → (pos (a4_height - address_bottom_from_top_of_page) ≤ℤ baseline (address_text address) i)
      × (baseline (address_text address) i +ℤ pos (address_text address).size
          ≤ℤ pos (a4_height - address_top_from_top_of_page))
unfolding address_text
address_text-in_window address i h k = (ground arith, ground arith)

-- An address has no error exactly if it is not empty, has enough lines and not too many, has letters or digits in its first two lines, names no country beside a BFPO number, ends in a valid line, has no invalid character and is not of no fixed abode.
pub error_code-none :
    (lib : Libraries) (a : PostalAddress)
    → (error_code lib a ≡ none) ↔ (
        (lib.is_truthy a ≡ true)
        × (lib.has_enough_lines a ≡ true)
        × (lib.has_too_many_lines a ≡ false)
        × (lib.has_alphanumeric_character_in_address_lines_1_and_2 a ≡ true)
        × (lib.has_invalid_country_for_bfpo_address a ≡ false)
        × (lib.has_valid_last_line a ≡ true)
        × (lib.has_invalid_characters a ≡ false)
        × (lib.has_no_fixed_abode_address a ≡ false))
unfolding error_code
error_code-none lib a = ground arith
