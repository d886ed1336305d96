-- ===== src/Memory/Number.antt =====
-- Reading a number from a string, `strtol` of labcode/lab8/libs/string.c, and printing one,
-- `printnum` of labcode/lab8/libs/printfmt.c.
pub mod RoundTrip
use oslabcode.Prelude.{
  ℕ, zero, suc, ◌+◌, ◌-◌, ◌*◌, ◌/◌, ◌%◌, ◌^◌, ◌≤◌, ◌<◌, ◌≡◌, ◌≢◌, refl, sym, ap, ◌∙◌, ◌↔◌, ◌⊎◌, inl,
  inr, Bool, true, false, not, ◌&&◌, ◌||◌, Option, none, some, List, [], ◌∷◌, ◌++◌, map,
  append_assoc, append-nil, arith, ltb, leb, ◌==◌, if◌then◌else◌, ltb→lt, lt→ltb, le→ltb, ==_iff,
  Bool-cases, Option-cases, update, ◌>>=◌, ◌>>◌, assert, Run, ok, panic, out_of_fuel, length,
  e_inval, e_no_mem, e_busy, e_max_open, count, count-append, Distinct, fun_ext, min,
}
use oslabcode.Memory.{Memory}

-- ' ' and '\t'
abbrev pub is_blank : ℕ → Bool
is_blank c = c == 32 || c == 9

-- The loop of `strtol` over the initial whitespace.
unfoldable pub skip_blanks : (fuel : ℕ) → Memory → (s : ℕ) → Run ℕ
skip_blanks zero mem s = out_of_fuel
skip_blanks (suc k) mem s =
    let rest = skip_blanks k mem (s + 1) in if is_blank (mem s) then rest else ok s

-- The digit that a character stands for: '0' to '9', 'a' to 'z', 'A' to 'Z'.
unfoldable pub digit_value : ℕ → Option ℕ
digit_value c =
    if leb 48 c && leb c 57
    then some (c - 48)
    else (if leb 97 c && leb c 122
        then some (c - 97 + 10)
        else (if leb 65 c && leb c 90 then some (c - 65 + 10) else none))

-- The loop of `strtol` over the digits, with the end of the number and its value. Behaviour that is
-- undefined, where `val`, a signed `long`, overflows, is a panic.
unfoldable pub read_digits : (fuel : ℕ) → Memory → (s base val : ℕ) → Run (ℕ × ℕ)
unfolding digit_value
read_digits zero mem s base val = out_of_fuel
read_digits (suc k) mem s base val = elim (digit_value (mem s)) [
  | none ↦ ok (s, val)
  | some dig ↦
      let rest = read_digits k mem (s + 1) base (val * base + dig) in
      if leb base dig
      then ok (s, val)
      else (if ltb (val * base + dig) (2 ^ 63) then rest else panic)
]

-- The sign: '+', or '-', which makes the number negative.
abbrev pub read_sign : Memory → ℕ → ℕ × Bool
read_sign mem s =
    if mem s == 43 then (s + 1, false) else (if mem s == 45 then (s + 1, true) else (s, false))

-- The prefix "0x" or "0", with the base that it asks for.
unfoldable pub read_prefix : Memory → (s base : ℕ) → ℕ × ℕ
read_prefix mem s base =
    if (base == 0 || base == 16) && (mem s == 48 && mem (s + 1) == 120)
    then (s + 2, 16)
    else (if base == 0 && mem s == 48
        then (s + 1, 8)
        else (if base == 0 then (s, 10) else (s, base)))

-- `strtol`, with its value as the 64 bits of a `long`, and the end that it stores.
unfoldable pub strtol : (fuel : ℕ) → Memory → (s base : ℕ) → Run (ℕ × ℕ)
unfolding skip_blanks read_prefix read_digits
strtol k mem s base = do
  s1 ← skip_blanks k mem s
  let (s2, neg) = read_sign mem s1
  let (s3, base') = read_prefix mem s2 base
  (end, val) ← read_digits k mem s3 base' 0
  ok (if neg then (2 ^ 64 - val) % 2 ^ 64 else val, end)

-- "0123456789abcdef"[mod]
abbrev pub digit_char : ℕ → ℕ
digit_char d = if ltb d 10 then 48 + d else 87 + d

-- `while (-- width > 0) putch(padc)`
unfoldable pub pads : (left padc : ℕ) → List ℕ
pads zero padc = []
pads (suc k) padc = padc ∷ pads k padc

-- The characters that `printnum` gives to `putch`, one after the other. A width below 0 pads as 0
-- does.
unfoldable pub printnum : (fuel : ℕ) → (num base width padc : ℕ) → Run (List ℕ)
unfolding pads
printnum zero num base width padc = out_of_fuel
printnum (suc k) num base width padc =
    let front = printnum k (num / base) base (width - 1) padc in
    let digit = digit_char (num % base) in
    if leb base num
    then (do cs ← front; ok (cs ++ digit ∷ []))
    else ok (pads (width - 1) padc ++ digit ∷ [])
