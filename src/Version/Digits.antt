-- ===== src/Version/Digits.antt =====
-- `write_decimal` and `decimal_length` against the plain decimal print.
use libgitledger.Prelude.{
  ℕ, zero, suc, ◌+◌, ◌-◌, ◌/◌, ◌%◌, ◌^◌, ◌≤◌, ◌<◌, ◌≡◌, [], ◌∷◌, ◌++◌, true, some, arith, ltb-false,
  length, append-nil, append_assoc,
}
use libgitledger.Text.{Bytes, decimal_digits, decimal}
use libgitledger.Text.Decimal.{decimal_digits_step, length-decimal_digits}
use libgitledger.Version.{
  Cursor, collect_digits, emit_digits, write_decimal, decimal_length_loop, decimal_length,
}

-- The loop finds room for every digit of a number below `10 ^ room`.
collect_digits_lem :
    (room n : ℕ) (out : Bytes)
    → n < 10 ^ suc room
    → collect_digits (suc room) n out ≡ some (decimal_digits (n + 1) n out)
unfolding collect_digits
collect_digits_lem zero n out h = rw decimal_digits_step (ground arith)
collect_digits_lem (suc room) n out h =
    rw decimal_digits_step
      (ground (arith, collect_digits_lem room (n / 10) ((b'0' + n % 10) ∷ out)))

emit_digits_lem :
    (ds : Bytes) (cur : Cursor)
    → emit_digits ds cur
      ≡ record { written = cur.written ++ ds; remaining = cur.remaining - length ds }
unfolding emit_digits
emit_digits_lem [] cur = rw append-nil (ground arith)
emit_digits_lem (d ∷ ds) cur = rw (emit_digits_lem ds, append_assoc) (ground arith)

pub length-decimal : (n : ℕ) → n < 2 ^ 32 → length (decimal n) ≤ 10
unfolding decimal
length-decimal n h = length-decimal_digits 9 (n + 1) n [] (omega arith) (omega arith)

-- For a 32-bit number and at least 10 bytes of room, `write_decimal` succeeds, writes the decimal
-- digits of the number, and moves the cursor behind them.
pub write_decimal_lem :
    (n : ℕ) (cur : Cursor)
    → n < 2 ^ 32
    → 10 ≤ cur.remaining
    → write_decimal n cur ≡ (
      true,
      record { written = cur.written ++ decimal n; remaining = cur.remaining - length (decimal n) },
    )
unfolding write_decimal decimal
write_decimal_lem n cur h room = rw (
  write_decimal,
  collect_digits_lem 9 n [] (omega arith),
  ltb-false cur.remaining (length (decimal n)) (omega (arith, length-decimal n h)),
  emit_digits_lem,
)

decimal_length_loop_lem :
    (f n : ℕ) (out : Bytes)
    → n < f
    → decimal_length_loop f n (length out + 1) ≡ length (decimal_digits f n out)
unfolding decimal_length_loop decimal_digits
decimal_length_loop_lem zero n out h = absurd (omega arith)
decimal_length_loop_lem (suc f) n out h =
    ground (arith, decimal_length_loop_lem f (n / 10) ((b'0' + n % 10) ∷ out))

-- For every number, `decimal_length` is the number of its decimal digits.
pub decimal_length_lem : (n : ℕ) → decimal_length n ≡ length (decimal n)
unfolding decimal_length decimal
decimal_length_lem n = decimal_length_loop_lem (n + 1) n [] (omega arith)
