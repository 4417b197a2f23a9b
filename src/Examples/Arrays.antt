-- ===== src/Examples/Arrays.antt =====
-- Arrays of numbers.
use switchtec_nvme_cli.Base.{ℕ, ◌≡◌, refl, pos, List, [], ◌∷◌, some, map, length, arith}
use switchtec_nvme_cli.Text.{
  strtol, scan_number, scan_signed, skip_space, is_space, scan_unsigned, has_hex_prefix, digit_in,
  scan_digits,
}
use switchtec_nvme_cli.Argconfig.{
  parse_comma_sep_array, first_token, array_loop, strtok_all, split_commas, failed,
}
use switchtec_nvme_cli.Argconfig.Arrays.{join, parse_comma_sep_array-join}

abbrev numbers : List ℕ
numbers = 3 ∷ 0 ∷ 70000 ∷ []

parse_comma_sep_array-join_example :
    parse_comma_sep_array (some (join 3 (0 ∷ 70000 ∷ []))) 3 ≡ (length numbers, map pos numbers)
parse_comma_sep_array-join_example =
    parse_comma_sep_array-join 3 (0 ∷ 70000 ∷ []) 3 (omega arith, (omega arith, (omega arith, tt)))
      (omega arith)

-- The second number of two does not fit an array of one.
too_many : parse_comma_sep_array (some (b'1' ∷ b',' ∷ b'2' ∷ [])) 1 ≡ (failed, pos 1 ∷ [])
unfolding parse_comma_sep_array first_token array_loop strtok_all split_commas strtol scan_number
    scan_signed skip_space is_space scan_unsigned has_hex_prefix digit_in scan_digits
too_many = refl

-- An array of no elements gets one all the same.
no_room : parse_comma_sep_array (some (b'1' ∷ [])) 0 ≡ (1, pos 1 ∷ [])
unfolding parse_comma_sep_array first_token array_loop strtok_all split_commas strtol scan_number
    scan_signed skip_space is_space scan_unsigned has_hex_prefix digit_in scan_digits
no_room = refl
