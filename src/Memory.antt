-- ===== src/Memory.antt =====
-- The strings and blocks of memory of labcode/lab8/libs/string.c, in the portable branches. The
-- memory holds a byte at each address.
pub mod Buffer
pub mod Compare
pub mod Copy
pub mod Number
use oslabcode.Prelude.{
  ℕ, zero, suc, ◌+◌, ◌-◌, ◌*◌, ◌/◌, ◌%◌, ◌^◌, ◌≤◌, ◌<◌, ◌≡◌, ◌≢◌, refl, sym, ap, ◌∙◌, ◌↔◌, ◌⊎◌, inl,
  inr, Bool, true, false, not, ◌&&◌, ◌||◌, Option, none, some, List, [], ◌∷◌, ◌++◌, map,
  append_assoc, append-nil, arith, ltb, leb, ◌==◌, if◌then◌else◌, ltb→lt, lt→ltb, le→ltb, ==_iff,
  Bool-cases, Option-cases, update, ◌>>=◌, ◌>>◌, assert, Run, ok, panic, out_of_fuel, length,
  length-append, e_inval, e_no_mem, e_busy, e_max_open, count, count-append, Distinct, fun_ext, min,
}

abbrev pub Memory : Type 0
Memory = ℕ → ℕ

-- The loop of `strlen`, with a bound on its rounds: a string may have no end.
unfoldable pub strlen_walk : (fuel : ℕ) → Memory → (s cnt : ℕ) → Run ℕ
strlen_walk zero mem s cnt = out_of_fuel
strlen_walk (suc k) mem s cnt =
    let rest = strlen_walk k mem (s + 1) (cnt + 1) in if mem s == 0 then ok cnt else rest

unfoldable pub strlen : (fuel : ℕ) → Memory → (s : ℕ) → Run ℕ
unfolding strlen_walk
strlen k mem s = strlen_walk k mem s 0

unfoldable pub strnlen : Memory → (s len : ℕ) → ℕ
strnlen mem s zero = 0
strnlen mem s (suc len) = let rest = strnlen mem (s + 1) len in if mem s == 0 then 0 else rest + 1

unfoldable pub strcpy : (fuel : ℕ) → Memory → (dst src : ℕ) → Run Memory
strcpy zero mem dst src = out_of_fuel
strcpy (suc k) mem dst src =
    let mem' = update mem dst (mem src) in
    let rest = strcpy k mem' (dst + 1) (src + 1) in if mem src == 0 then ok mem' else rest

unfoldable pub strncpy : Memory → (dst src len : ℕ) → Memory
strncpy mem dst src zero = mem
strncpy mem dst src (suc len) =
    let mem' = update mem dst (mem src) in
    strncpy mem' (dst + 1) (if mem src == 0 then src else src + 1) len

unfoldable pub strcat : (fuel : ℕ) → Memory → (dst src : ℕ) → Run Memory
unfolding strlen strcpy
strcat k mem dst src = do len ← strlen k mem dst; strcpy k mem (dst + len) src

-- A difference of two bytes is an `int`, of 32 bits.
abbrev pub byte_diff : ℕ → ℕ → ℕ
byte_diff a b = (a + 2 ^ 32 - b) % 2 ^ 32

unfoldable pub strcmp : (fuel : ℕ) → Memory → (s1 s2 : ℕ) → Run ℕ
strcmp zero mem s1 s2 = out_of_fuel
strcmp (suc k) mem s1 s2 =
    let rest = strcmp k mem (s1 + 1) (s2 + 1) in
    if not (mem s1 == 0) && (mem s1 == mem s2) then rest else ok (byte_diff (mem s1) (mem s2))

unfoldable pub strncmp : Memory → (s1 s2 n : ℕ) → ℕ
strncmp mem s1 s2 zero = 0
strncmp mem s1 s2 (suc n) =
    let rest = strncmp mem (s1 + 1) (s2 + 1) n in
    if not (mem s1 == 0) && (mem s1 == mem s2) then rest else byte_diff (mem s1) (mem s2)

unfoldable pub strchr : (fuel : ℕ) → Memory → (s c : ℕ) → Run (Option ℕ)
strchr zero mem s c = out_of_fuel
strchr (suc k) mem s c =
    let rest = strchr k mem (s + 1) c in
    if mem s == 0 then ok none else (if mem s == c then ok (some s) else rest)

unfoldable pub strfind : (fuel : ℕ) → Memory → (s c : ℕ) → Run ℕ
strfind zero mem s c = out_of_fuel
strfind (suc k) mem s c =
    let rest = strfind k mem (s + 1) c in
    if mem s == 0 then ok s else (if mem s == c then ok s else rest)

unfoldable pub memset : Memory → (s c n : ℕ) → Memory
memset mem s c zero = mem
memset mem s c (suc n) = memset (update mem s c) (s + 1) c n

unfoldable pub memcpy : Memory → (d s n : ℕ) → Memory
memcpy mem d s zero = mem
memcpy mem d s (suc n) = memcpy (update mem d (mem s)) (d + 1) (s + 1) n

-- The loop of `memmove` from the ends down.
unfoldable pub copy_down : Memory → (d s n : ℕ) → Memory
copy_down mem d s zero = mem
copy_down mem d s (suc n) = copy_down (update mem (d - 1) (mem (s - 1))) (d - 1) (s - 1) n

-- The loop of `memmove` from the starts up.
unfoldable pub copy_up : Memory → (d s n : ℕ) → Memory
copy_up mem d s zero = mem
copy_up mem d s (suc n) = copy_up (update mem d (mem s)) (d + 1) (s + 1) n

unfoldable pub memmove : Memory → (dst src n : ℕ) → Memory
unfolding copy_down copy_up
memmove mem dst src n =
    if ltb src dst && ltb dst (src + n)
    then copy_down mem (dst + n) (src + n) n
    else copy_up mem dst src n

unfoldable pub memcmp : Memory → (v1 v2 n : ℕ) → ℕ
memcmp mem v1 v2 zero = 0
memcmp mem v1 v2 (suc n) =
    let rest = memcmp mem (v1 + 1) (v2 + 1) n in
    if mem v1 == mem v2 then rest else byte_diff (mem v1) (mem v2)
