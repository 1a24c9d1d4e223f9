-- ===== src/Tests/Numbers.antt =====
-- Numbers as text, at concrete inputs.
use pintos_nightmare.Base.{
  if◌then◌else◌, length, ◌>>=◌, ℕ, ◌-◌, ◌^◌, ◌≤◌, ◌≡◌, refl, true, false, none, some, List, [], ◌∷◌,
  arith,
}
use pintos_nightmare.Printf.{
  PrintfConversion, base_d, base_o, format_integer, fill_buf, digits_loop, zero_loop, sign_char,
  prefix_chars, negate, atoi, skip_space, isspace, isdigit, parse_signed, value_loop,
}
use pintos_nightmare.Printf.Buffer.{fill_buf-fits}
use pintos_nightmare.Printf.RoundTrip.{atoi-format_integer}

-- "%+08d"
abbrev padded : PrintfConversion
padded = record {
  minus = false;
  plus = true;
  space = false;
  pound = false;
  zeros = true;
  group = false;
  width = 8;
  precision = none;
}

-- "%'#70.63o"
abbrev widest : PrintfConversion
widest = record {
  minus = false;
  plus = false;
  space = false;
  pound = true;
  zeros = false;
  group = true;
  width = 70;
  precision = some 63;
}

atoi-format_integer_example :
    (s : List ℕ) × (format_integer 305 true true base_d padded ≡ some s)
    × (atoi s ≡ (if true then negate 305 else 305))
atoi-format_integer_example = atoi-format_integer 305 true padded (omega arith) refl

fill_buf-fits_example :
    (buf : List ℕ) × (fill_buf 0xffff_ffff_ffff_ffff base_o widest ≡ some buf) × (length buf ≤ 64)
fill_buf-fits_example =
    fill_buf-fits 0xffff_ffff_ffff_ffff base_o widest (omega arith) (omega arith)

-- "-0000305"
written :
    format_integer 305 true true base_d padded ≡ some (45 ∷ 48 ∷ 48 ∷ 48 ∷ 48 ∷ 51 ∷ 48 ∷ 53 ∷ [])
unfolding format_integer fill_buf digits_loop zero_loop sign_char prefix_chars
written = refl

-- " \t-17x"
read_back : atoi (32 ∷ 9 ∷ 45 ∷ 49 ∷ 55 ∷ 120 ∷ []) ≡ 2 ^ 32 - 17
unfolding atoi skip_space isspace isdigit parse_signed value_loop
read_back = refl

-- atoi stops at the comma that the flag for groups puts between the digits.
abbrev grouped : PrintfConversion
grouped = record padded { group = true }

groups_lost : (format_integer 1234567 true false base_d grouped >>= λ s. some (atoi s)) ≡ some 1
unfolding format_integer fill_buf digits_loop zero_loop sign_char prefix_chars atoi skip_space
    isspace isdigit parse_signed value_loop
groups_lost = refl
