-- ===== src/Memory/Number/RoundTrip.antt =====
-- A number that is printed is read back.
use oslabcode.Prelude.{
  ℕ, zero, suc, ◌+◌, ◌-◌, ◌*◌, ◌/◌, ◌%◌, ◌^◌, ◌≤◌, ◌<◌, ◌≡◌, refl, sym, ap, ◌∙◌, inl, inr, true,
  false, ◌&&◌, some, List, [], ◌∷◌, ◌++◌, arith, ltb, leb, ◌==◌, Bool-cases, Run, ok, length,
  length-append,
}
use mathlib.Core.Path.{subst}
use oslabcode.Memory.{Memory}
use oslabcode.Memory.Number.{
  skip_blanks, digit_value, read_digits, read_sign, read_prefix, strtol, digit_char, pads, printnum,
  is_blank,
}

-- The value that digits give in a base, behind the value so far.
abbrev pub value : (base val : ℕ) → List ℕ → ℕ
value base val [] = val
value base val (d ∷ ds) = value base (val * base + d) ds

value-append :
    (base val d : ℕ) (ds : List ℕ) → value base val (ds ++ d ∷ []) ≡ value base val ds * base + d
value-append base val d [] = refl
value-append base val d (e ∷ ds) = value-append base (val * base + e) d ds

value-le : (base val : ℕ) (ds : List ℕ) → 0 < base → val ≤ value base val ds
value-le base val [] pos = omega arith
value-le base val (d ∷ ds) pos = grind (arith, value-le base (val * base + d) ds pos)

abbrev pub Digits : ℕ → List ℕ → Type 0
Digits base [] = Unit
Digits base (d ∷ ds) = (d < base) × Digits base ds

Digits-append : (base d : ℕ) (ds : List ℕ) → Digits base ds → d < base → Digits base (ds ++ d ∷ [])
Digits-append base d [] h lt = (lt, tt)
Digits-append base d (e ∷ ds) h lt = (h.0, Digits-append base d ds h.1 lt)

-- The characters stand in memory from `s` on.
abbrev pub Stored : Memory → ℕ → List ℕ → Type 0
Stored mem s [] = Unit
Stored mem s (c ∷ cs) = (mem s ≡ c) × Stored mem (s + 1) cs

abbrev pub chars : List ℕ → List ℕ
chars [] = []
chars (d ∷ ds) = digit_char d ∷ chars ds

chars-append : (ds : List ℕ) (d : ℕ) → chars (ds ++ d ∷ []) ≡ chars ds ++ digit_char d ∷ []
chars-append [] d = refl
chars-append (e ∷ ds) d = ap (λ cs. digit_char e ∷ cs) (chars-append ds d)

-- What `printnum` puts out without padding: the digits of the number.
pub record Printed (num base : ℕ) (ds cs : List ℕ) : Type 0 where
  pub out : cs ≡ chars ds
  pub digits : Digits base ds
  pub exact : value base 0 ds ≡ num
  pub some_digit : 0 < length ds

digits-value : (num base : ℕ) → 0 < base → num / base * base + num % base ≡ num
digits-value num base pos = grind arith

small_quotient : (num base : ℕ) → 1 < base → base ≤ num → num / base < num
small_quotient num base pos le = grind arith

digit_value-char : (d : ℕ) → d < 16 → digit_value (digit_char d) ≡ some d
unfolding digit_value
digit_value-char d lt = ground arith

printnum-step :
    (k num base width padc : ℕ) (cs : List ℕ)
    → leb base num ≡ true
    → printnum k (num / base) base (width - 1) padc ≡ ok cs
    → printnum (suc k) num base width padc ≡ ok (cs ++ digit_char (num % base) ∷ [])
unfolding printnum
printnum-step k num base width padc cs big e = rw (big, e)

printnum-last :
    (k num base padc : ℕ)
    → leb base num ≡ false
    → printnum (suc k) num base 0 padc ≡ ok (digit_char (num % base) ∷ [])
unfolding printnum pads
printnum-last k num base padc small = rw small

mod-lt : (num base : ℕ) → 0 < base → num % base < base
mod-lt num base pos = grind arith

mod_small : (num base : ℕ) → num < base → num % base ≡ num
mod_small num base lt = grind arith

printnum-Printed :
    (k num base padc : ℕ)
    → 1 < base
    → num < k
    → (ds : List ℕ) × (cs : List ℕ) × (printnum k num base 0 padc ≡ ok cs) × Printed num base ds cs
printnum-Printed zero num base padc b lt = absurd (omega arith)
printnum-Printed (suc k) num base padc b lt = elim (Bool-cases (leb base num)) [
  | inr small ↦
      let low : num < base = ground (arith, small) in
      (
        num % base ∷ [],
        digit_char (num % base) ∷ [],
        printnum-last k num base padc small,
        record {
          out = refl;
          digits = (mod-lt num base (omega arith), tt);
          exact = omega (arith, mod_small num base low);
          some_digit = omega arith;
        },
      )
  | inl big ↦
      let le : base ≤ num = ground (arith, big) in
      let (ds, cs, e, p) =
        printnum-Printed k (num / base) base padc b (omega (arith, small_quotient num base b le)) in
      (
        ds ++ num % base ∷ [],
        cs ++ digit_char (num % base) ∷ [],
        printnum-step k num base 0 padc cs big e,
        record {
          out = rw (p.out, chars-append);
          digits = Digits-append base (num % base) ds p.digits (mod-lt num base (omega arith));
          exact = rw (value-append, p.exact) (digits-value num base (omega arith));
          some_digit = omega (arith, length-append ds (num % base ∷ []));
        },
      )
]

read_digits-end :
    (k : ℕ) (mem : Memory) (s base val : ℕ)
    → mem s ≡ 0
    → read_digits (suc k) mem s base val ≡ ok (s, val)
unfolding read_digits digit_value
read_digits-end k mem s base val e = ground (arith, e)

read_digits-step :
    (k : ℕ) (mem : Memory) (s base val d : ℕ)
    → mem s ≡ digit_char d
    → base ≤ 16
    → d < base
    → val * base + d < 2 ^ 63
    → read_digits (suc k) mem s base val ≡ read_digits k mem (s + 1) base (val * base + d)
unfolding read_digits
read_digits-step k mem s base val d e b lt small =
    let found : digit_value (mem s) ≡ some d = rw e (digit_value-char d (omega arith)) in
    let fits : leb base d ≡ false = ground arith in
    let low : ltb (val * base + d) (2 ^ 63) ≡ true = ground arith in
    ground (arith, found, fits, low)

read_digits-value :
    (ds : List ℕ) (k : ℕ) (mem : Memory) (s base val : ℕ)
    → base ≤ 16
    → 0 < base
    → Digits base ds
    → Stored mem s (chars ds)
    → mem (s + length ds) ≡ 0
    → value base val ds < 2 ^ 63
    → length ds < k
    → read_digits k mem s base val ≡ ok (s + length ds, value base val ds)
read_digits-value ds zero mem s base val b pos dig st end small lt = absurd (omega arith)
read_digits-value [] (suc k) mem s base val b pos dig st end small lt =
    let here : s + 0 ≡ s = omega arith in
    rw here (read_digits-end k mem s base val (rw here at end))
read_digits-value (d ∷ ds) (suc k) mem s base val b pos dig st end small lt =
    let low : val * base + d < 2 ^ 63 = omega (arith, value-le base (val * base + d) ds pos) in
    let next : s + suc (length ds) ≡ s + 1 + length ds = omega arith in
    read_digits-step k mem s base val d st.0 b dig.0 low
    ∙ rw next (
        read_digits-value ds k mem (s + 1) base (val * base + d) b pos dig.1 st.1 (rw next at end)
          small (omega arith))

-- The first character of a printed number starts neither whitespace nor a sign nor a prefix.
pub record Plain (mem : Memory) (s : ℕ) : Type 0 where
  pub blank : is_blank (mem s) ≡ false
  pub sign : read_sign mem s ≡ (s, false)
  pub prefix : (mem s == 48 && mem (s + 1) == 120) ≡ false

read_sign-Plain :
    (ds : List ℕ) (mem : Memory) (s base : ℕ)
    → base ≤ 16
    → 0 < length ds
    → Digits base ds
    → Stored mem s (chars ds)
    → mem (s + length ds) ≡ 0
    → Plain mem s
read_sign-Plain [] mem s base b pos dig st end = absurd (omega arith)
read_sign-Plain (d ∷ []) mem s base b pos dig st end = record {
  blank = rw st.0 (ground (arith, dig.0));
  sign = rw st.0 (ground (arith, dig.0));
  prefix = rw (st.0, end) (ground arith);
}
read_sign-Plain (d ∷ e ∷ ds) mem s base b pos dig st end = record {
  blank = rw st.0 (ground (arith, dig.0));
  sign = rw st.0 (ground (arith, dig.0));
  prefix = rw (st.0, st.1.0) (ground (arith, dig.1.0));
}

skip_blanks-none :
    (k : ℕ) (mem : Memory) (s : ℕ) → is_blank (mem s) ≡ false → skip_blanks (suc k) mem s ≡ ok s
unfolding skip_blanks
skip_blanks-none k mem s e = rw e

read_prefix-none :
    (mem : Memory) (s base : ℕ)
    → 0 < base
    → (mem s == 48 && mem (s + 1) == 120) ≡ false
    → read_prefix mem s base ≡ (s, base)
unfolding read_prefix
read_prefix-none mem s base pos e = ground (arith, e)

strtol-Plain :
    (k : ℕ) (mem : Memory) (s base end val : ℕ)
    → 0 < base
    → Plain mem s
    → read_digits (suc k) mem s base 0 ≡ ok (end, val)
    → strtol (suc k) mem s base ≡ ok (val, end)
unfolding strtol
strtol-Plain k mem s base end val pos plain e = rw (
  skip_blanks-none k mem s plain.blank,
  plain.sign,
  read_prefix-none mem s base pos plain.prefix,
  e,
)

ok-injective : (cs cs' : List ℕ) → ◌≡◌ {A = Run (List ℕ)} (ok cs) (ok cs') → cs ≡ cs'
ok-injective cs cs' e = cc

length-chars : (ds : List ℕ) → length (chars ds) ≡ length ds
length-chars [] = refl
length-chars (d ∷ ds) = ap suc (length-chars ds)

-- `strtol` in the base from 2 to 16 in which `printnum` has printed a number below 2 ^ 63, which a
-- `long` can hold, with the width 0, that is without padding, reads the number back, where the
-- characters stand in memory with a 0 behind them, with more rounds than there are characters, and
-- ends there.
pub strtol-printnum :
    (num base padc k : ℕ) (mem : Memory) (s : ℕ) (cs : List ℕ)
    → 1 < base
    → base ≤ 16
    → num < 2 ^ 63
    → printnum (num + 1) num base 0 padc ≡ ok cs
    → Stored mem s cs
    → mem (s + length cs) ≡ 0
    → length cs < k
    → strtol k mem s base ≡ ok (num, s + length cs)
strtol-printnum num base padc zero mem s cs b b' small e st end lt = absurd (omega arith)
strtol-printnum num base padc (suc k) mem s cs b b' small e st end lt =
    let (ds, cs', e', p) = printnum-Printed (num + 1) num base padc b (omega arith) in
    let same : cs ≡ chars ds = ok-injective cs cs' (sym e ∙ e') ∙ p.out in
    let many : length cs ≡ length ds = ap length same ∙ length-chars ds in
    let st' = subst (λ l. Stored mem s l) same st in
    let end' : mem (s + length ds) ≡ 0 = subst (λ n. mem (s + n) ≡ 0) many end in
    strtol-Plain k mem s base (s + length cs) num (omega arith)
      (read_sign-Plain ds mem s base b' p.some_digit p.digits st' end')
      (read_digits-value ds (suc k) mem s base 0 b' (omega arith) p.digits st' end'
          (omega (arith, p.exact, small)) (omega (arith, many, lt))
        ∙ rw (p.exact, many))
