-- ===== src/Prelude/Errors.antt =====
-- The error codes of labcode/lab8/libs/error.h. A function that returns `-E_X` returns the number
-- of `E_X` here, and 0 for success.
use Prim.Native.Nat.{ℕ}

abbrev pub e_inval : ℕ
e_inval = 3

abbrev pub e_no_mem : ℕ
e_no_mem = 4

abbrev pub e_busy : ℕ
e_busy = 15

abbrev pub e_max_open : ℕ
e_max_open = 22
