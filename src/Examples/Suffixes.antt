-- ===== src/Examples/Suffixes.antt =====
-- Numbers with suffixes.
use switchtec_nvme_cli.Base.{
  ℕ, ◌≡◌, ◌*◌, ◌^◌, ◌%◌, refl, pos, neg, ◌-◌, ◌==◌, if◌then◌else◌, [], ◌∷◌, arith,
}
use switchtec_nvme_cli.Text.{
  strtol, scan_number, scan_signed, skip_space, is_space, scan_unsigned, has_hex_prefix, digit_in,
  scan_digits,
}
use switchtec_nvme_cli.Text.Decimal.{decimal}
use switchtec_nvme_cli.Suffix.{suffix_binary_parse, suffix_binary_get}
use switchtec_nvme_cli.Suffix.Laws.{
  IsUnit, IsNearest, suffix_binary_parse-unit, suffix_binary_get-IsNearest, unit_text, scale,
}

four_mebi : suffix_binary_parse (b'4' ∷ b'M' ∷ []) ≡ (4 * 2 ^ 20, 0)
unfolding suffix_binary_parse strtol scan_number scan_signed skip_space is_space scan_unsigned
    has_hex_prefix digit_in scan_digits
four_mebi = refl

-- Text without digits is 0 and raises no error.
only_a_suffix : suffix_binary_parse (b'K' ∷ []) ≡ (0, 0)
unfolding suffix_binary_parse strtol scan_number scan_signed skip_space is_space scan_unsigned
    has_hex_prefix digit_in
only_a_suffix = refl

suffix_binary_parse-unit_example :
    suffix_binary_parse (decimal 4 (b'M' ∷ b'x' ∷ [])) ≡ (4 * 2 ^ 20 % 2 ^ 64, 0)
suffix_binary_parse-unit_example =
    suffix_binary_parse-unit IsUnit.mebi 4 (b'x' ∷ []) (omega arith) (omega arith)

suffix_binary_get-IsNearest_example :
    (q : ℕ) × (suffix_binary_get (pos 1638) ≡ (pos q, unit_text (scale 1638)))
    × (suffix_binary_get (neg 1638)
        ≡ (neg (if scale 1638 == 0 then q else q - 1), unit_text (scale 1638)))
    × IsNearest 1638 q (scale 1638)
suffix_binary_get-IsNearest_example = suffix_binary_get-IsNearest 1638 (omega arith)
