-- ===== src/Printf.antt =====
-- lib/stdio.c: format_integer, and lib/stdlib.c: atoi. A string is a list of bytes without the null
-- byte at its end. The buffer `buf` is the list of what was stored, the last byte first.
use pintos_nightmare.Base.{
  ltb, leb, ◌==◌, if◌then◌else◌, length, replicate, ◌>>=◌, ◌>>◌, ℕ, zero, suc, ◌+◌, ◌-◌, ◌*◌, ◌/◌,
  ◌%◌, ◌^◌, Bool, true, false, not, ◌&&◌, ◌||◌, Option, none, some, List, [], ◌∷◌, ◌++◌,
}
pub mod Buffer
pub mod RoundTrip

-- A precision of -1 is `none`, and the width is not negative after parse_conversion.
pub record PrintfConversion : Type 0 where
  pub minus : Bool
  pub plus : Bool
  pub space : Bool
  pub pound : Bool
  pub zeros : Bool
  pub group : Bool
  pub width : ℕ
  pub precision : Option ℕ

pub record IntegerBase : Type 0 where
  pub base : ℕ
  pub digits : ℕ → ℕ
  pub x : ℕ
  pub group_size : ℕ

-- The digits below ten, then the letters from `a` or `A`
abbrev pub digit_from : ℕ → ℕ → ℕ
digit_from letter d = if ltb d 10 then 48 + d else letter + (d - 10)

abbrev pub base_d : IntegerBase
base_d = record { base = 10; digits = digit_from 97; x = 0; group_size = 3 }

abbrev pub base_o : IntegerBase
base_o = record { base = 8; digits = digit_from 97; x = 0; group_size = 3 }

abbrev pub base_x : IntegerBase
base_x = record { base = 16; digits = digit_from 97; x = 120; group_size = 4 }

abbrev pub base_X : IntegerBase
base_X = record { base = 16; digits = digit_from 65; x = 88; group_size = 4 }

-- `if ((c->flags & GROUP) && digit_cnt > 0 && digit_cnt % b->group == 0) *cp++ = ',';`
abbrev pub comma : IntegerBase → Bool → ℕ → List ℕ → List ℕ
comma b group digit_cnt buf =
    if group && ltb 0 digit_cnt && (digit_cnt % b.group_size == 0) then 44 ∷ buf else buf

unfoldable pub digits_loop : ℕ → IntegerBase → Bool → ℕ → ℕ → List ℕ → Option (List ℕ)
digits_loop zero b group value digit_cnt buf = none
digits_loop (suc fuel) b group value digit_cnt buf =
    let rest =
      digits_loop fuel b group (value / b.base) (digit_cnt + 1)
        (b.digits (value % b.base) ∷ comma b group digit_cnt buf) in
    if ltb 0 value then rest else some buf

-- `while (cp - buf < precision && cp < buf + sizeof buf - 1) *cp++ = '0';`
unfoldable pub zero_loop : ℕ → ℕ → List ℕ → List ℕ
zero_loop zero precision buf = buf
zero_loop (suc fuel) precision buf =
    let rest = zero_loop fuel precision (48 ∷ buf) in
    if ltb (length buf) precision && ltb (length buf) 63 then rest else buf

abbrev pub is_zero_first : List ℕ → Bool
is_zero_first [] = false
is_zero_first (ch ∷ buf) = ch == 48

abbrev pub rendered : Option ℕ → ℕ
rendered none = 1
rendered (some p) = p

-- What is in `buf` after the digits, the zeros for the precision, and the zero for octal numbers
unfoldable pub fill_buf : ℕ → IntegerBase → PrintfConversion → Option (List ℕ)
fill_buf value b c = do
  digits ← digits_loop 65 b c.group value 0 []
  let buf = zero_loop 64 (rendered c.precision) digits
  some (if c.pound && (b.base == 8) && not (is_zero_first buf) then 48 ∷ buf else buf)

unfoldable pub sign_char : Bool → Bool → PrintfConversion → List ℕ
sign_char false negative c = []
sign_char true negative c =
    if c.plus
    then (if negative then 45 ∷ [] else 43 ∷ [])
    else if c.space
    then (if negative then 45 ∷ [] else 32 ∷ [])
    else if negative
    then 45 ∷ []
    else []

-- `0x` or `0X`, where the base has it
unfoldable pub prefix_chars : ℕ → IntegerBase → PrintfConversion → List ℕ
prefix_chars value b c = if c.pound && ltb 0 value && not (b.x == 0) then 48 ∷ b.x ∷ [] else []

unfoldable pub format_integer : ℕ → Bool → Bool → IntegerBase → PrintfConversion → Option (List ℕ)
format_integer value is_signed negative b c = do
  buf ← fill_buf value b c
  let sign = sign_char is_signed negative c
  let prefix = prefix_chars value b c
  let pad_cnt = c.width - length buf - length prefix - length sign
  some (
      (if c.minus || c.zeros then [] else replicate pad_cnt 32)
      ++ (sign
          ++ (prefix
              ++ ((if c.zeros then replicate pad_cnt 48 else [])
                  ++ (buf ++ (if c.minus then replicate pad_cnt 32 else []))))))

unfoldable pub isspace : ℕ → Bool
isspace ch = (ch == 32) || (leb 9 ch && leb ch 13)

unfoldable pub isdigit : ℕ → Bool
isdigit ch = leb 48 ch && leb ch 57

unfoldable pub skip_space : List ℕ → List ℕ
skip_space [] = []
skip_space (ch ∷ s) = if isspace ch then skip_space s else ch ∷ s

-- `for (value = 0; isdigit (*s); s++) value = value * 10 - (*s - '0');`, in 32 bits
unfoldable pub value_loop : ℕ → List ℕ → ℕ
value_loop value [] = value
value_loop value (ch ∷ s) =
    if isdigit ch then value_loop ((value * 10 + 2 ^ 32 - (ch - 48)) % 2 ^ 32) s else value

abbrev pub negate : ℕ → ℕ
negate v = (2 ^ 32 - v) % 2 ^ 32

unfoldable pub parse_signed : List ℕ → ℕ
parse_signed [] = negate (value_loop 0 [])
parse_signed (ch ∷ s) =
    if ch == 43
    then negate (value_loop 0 s)
    else if ch == 45
    then value_loop 0 s
    else negate (value_loop 0 (ch ∷ s))

-- The int is its bit pattern.
unfoldable pub atoi : List ℕ → ℕ
atoi s = parse_signed (skip_space s)
