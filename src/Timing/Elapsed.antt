-- ===== src/Timing/Elapsed.antt =====
-- The cycle counter of ASSN/ASSN6/clock.c measures the cycles that pass.
use csed.Prelude.{ℕ, suc, ◌+◌, ◌-◌, ◌*◌, ◌/◌, ◌%◌, ◌^◌, ◌<◌, ◌≡◌, ap, ◌∙◌, arith, ltb, lt→ltb, true}
use csed.Timing.{access_counter, start_counter, get_counter, round_to, round_double, as_double}

abbrev pub elapsed : ℕ → ℕ → ℕ
elapsed first last = (last + 2 ^ 64 - first) % 2 ^ 64

get_counter-as_double :
    (first last : ℕ)
    → first < 2 ^ 64
    → last < 2 ^ 64
    → get_counter last (start_counter first) ≡ as_double (elapsed first last)
unfolding get_counter start_counter access_counter
get_counter-as_double first last h k = ap as_double (ground arith)

round_to-one : (n : ℕ) → round_to 1 n ≡ n
unfolding round_to
round_to-one n =
    let q : n / 1 ≡ n = omega arith in let r : n % 1 ≡ 0 = omega arith in rw (q, r) (omega arith)

round_double-exact : (f n : ℕ) → n < 2 ^ 53 → round_double (suc f) 1 n ≡ n
unfolding round_double
round_double-exact f n h =
    let small : ltb n (2 ^ 53 * 1) ≡ true = lt→ltb n (2 ^ 53 * 1) (omega arith) in
    rw small (round_to-one n)

as_double-exact : (n : ℕ) → n < 2 ^ 53 → as_double n ≡ n
unfolding as_double
as_double-exact n h = round_double-exact 10 n h

-- For 64-bit values of the counter and fewer than 2 ^ 53 cycles between them, get_counter gives
-- exactly the cycles since start_counter: the borrow between the halves is right, the counter may
-- wrap around once, and the result, a double, is not rounded.
pub get_counter-start_counter :
    (first last : ℕ)
    → first < 2 ^ 64
    → last < 2 ^ 64
    → elapsed first last < 2 ^ 53
    → get_counter last (start_counter first) ≡ elapsed first last
get_counter-start_counter first last h k short =
    get_counter-as_double first last h k ∙ as_double-exact (elapsed first last) short
