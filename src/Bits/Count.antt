-- ===== src/Bits/Count.antt =====
-- `bitCount` of ASSN/ASSN1/bits.c counts the ones, as the loop of `test_bitCount` does.
use Prim.Native.Nat.{bit_and}
use native.Mathlib.Nat.{zero-add, mod-eq_of_lt, pow-le-pow_right, div-div-eq-div-mul}
use csed.Prelude.{
  ℕ, zero, suc, ◌+◌, ◌-◌, ◌*◌, ◌/◌, ◌%◌, ◌^◌, ◌≤◌, ◌<◌, ◌≡◌, refl, sym, ap, ◌∙◌, arith,
}
use csed.Prelude.Digits.{pow_add}
use csed.Prelude.Masks.{bit_and-low, bit_and-mask, bit_and-le}
use csed.Prelude.Words.{int_add, int_shl, int_shr}
use csed.Bits.{add_halves, bit_count, test_bit_count_loop, test_bit_count}
use csed.Bits.Words.{shr-fields, shr-fits}
use csed.Bits.Sums.{sum_fields, pair_sums, low_halves, pair_sums-eq, sum_fields-pair_sums}

-- A mask below the sign that `>>` shifts in sees a logical shift.
shr-mask :
    (n m x : ℕ)
    → n < 32
    → m < 2 ^ (32 - n)
    → x < 2 ^ 32
    → bit_and (int_shr x n) m ≡ bit_and (x / 2 ^ n) m
shr-mask n m x hn hm hx =
    ap (λ (t : ℕ). bit_and t m) (shr-fields n hn x hx)
    ∙ bit_and-low (32 - n) (x / 2 ^ n) _ m (shr-fits n hn x hx) hm

add_halves-fits : (n m x : ℕ) → add_halves n m x < 2 ^ 32
add_halves-fits n m x = unfold add_halves int_add in omega arith

-- A line of `bitCount` is a round on the fields.
add_halves-pair_sums :
    (w n x : ℕ)
    → w < 32
    → low_halves w n < 2 ^ (32 - w)
    → low_halves w n < 2 ^ 31
    → x < 2 ^ 32
    → add_halves w (low_halves w n) x ≡ pair_sums w n x
add_halves-pair_sums w n x hw fits small hx =
    unfold add_halves int_add in
    rw (shr-mask w (low_halves w n) x hw fits hx) (
      mod-eq_of_lt
        (omega (arith, bit_and-le x (low_halves w n), bit_and-le (x / 2 ^ w) (low_halves w n)))
      ∙ pair_sums-eq w n x)

round_keeps :
    (w n x : ℕ)
    → 1 ≤ w
    → w < 32
    → low_halves w n < 2 ^ (32 - w)
    → low_halves w n < 2 ^ 31
    → x < 2 ^ 32
    → sum_fields (w + w) n (add_halves w (low_halves w n) x) ≡ sum_fields w (n * 2) x
round_keeps w n x pos hw fits small hx =
    ap (sum_fields (w + w) n) (add_halves-pair_sums w n x hw fits small hx)
    ∙ sum_fields-pair_sums w n x pos

whole-word : (x : ℕ) → x < 2 ^ 32 → sum_fields 32 1 x ≡ x
whole-word x h = unfold sum_fields in omega arith

-- The five rounds, on the masks as words of ones.
rounds : ℕ → ℕ
rounds x = add_halves 16 (low_halves 16 1) (
    add_halves 8 (low_halves 8 2) (
      add_halves 4 (low_halves 4 4)
        (add_halves 2 (low_halves 2 8) (add_halves 1 (low_halves 1 16) x))))

rounds-sum : (x : ℕ) → x < 2 ^ 32 → rounds x ≡ sum_fields 1 32 x
unfolding low_halves rounds
rounds-sum x h =
    let x1 : ℕ = add_halves 1 (low_halves 1 16) x in
    let x2 : ℕ = add_halves 2 (low_halves 2 8) x1 in
    let x3 : ℕ = add_halves 4 (low_halves 4 4) x2 in
    let x4 : ℕ = add_halves 8 (low_halves 8 2) x3 in
    sym (whole-word (rounds x) (add_halves-fits 16 (low_halves 16 1) x4))
    ∙ round_keeps 16 1 x4 (omega arith) (omega arith) (omega arith) (omega arith)
        (add_halves-fits 8 _ x3)
    ∙ round_keeps 8 2 x3 (omega arith) (omega arith) (omega arith) (omega arith)
        (add_halves-fits 4 _ x2)
    ∙ round_keeps 4 4 x2 (omega arith) (omega arith) (omega arith) (omega arith)
        (add_halves-fits 2 _ x1)
    ∙ round_keeps 2 8 x1 (omega arith) (omega arith) (omega arith) (omega arith)
        (add_halves-fits 1 _ x)
    ∙ round_keeps 1 16 x (omega arith) (omega arith) (omega arith) (omega arith) h

-- The five masks of the source are those words.
bit_count-rounds : (x : ℕ) → bit_count x ≡ rounds x
unfolding bit_count rounds low_halves int_shl
bit_count-rounds x = refl

-- One step of the loop of `test_bitCount`.
loop_bit : (i x : ℕ) → i < 32 → x < 2 ^ 32 → bit_and (int_shr x i) 1 ≡ x / 2 ^ i % 2
loop_bit i x hi hx =
    shr-mask i 1 x hi (pow-le-pow_right {n = 2} (omega arith) {i = 1} {j = 32 - i} (omega arith)) hx
    ∙ bit_and-mask 1 (x / 2 ^ i)

next_bits : (i x : ℕ) → x / 2 ^ i / 2 ≡ x / 2 ^ (i + 1)
next_bits i x = div-div-eq-div-mul x (2 ^ i) 2 ∙ ap (λ (t : ℕ). x / t) (pow_add i 1)

loop-sum :
    (left x i result : ℕ)
    → i + left ≤ 32
    → result ≤ i
    → x < 2 ^ 32
    → test_bit_count_loop left x i result ≡ result + sum_fields 1 left (x / 2 ^ i)
loop-sum zero x i result hi hr hx = unfold test_bit_count_loop sum_fields in omega arith
loop-sum (suc left) x i result hi hr hx =
    step
    ∙ ap (test_bit_count_loop left x (i + 1)) added
    ∙ loop-sum left x (i + 1) (result + x / 2 ^ i % 2) (omega arith) (omega arith) hx
    ∙ regroup
  where
    step :
        test_bit_count_loop (suc left) x i result
        ≡ test_bit_count_loop left x (i + 1) (int_add result (bit_and (int_shr x i) 1))
    step = unfold test_bit_count_loop in refl

    added : int_add result (bit_and (int_shr x i) 1) ≡ result + x / 2 ^ i % 2
    added = unfold int_add in rw (loop_bit i x (omega arith) hx) (omega arith)

    regroup :
        result + x / 2 ^ i % 2 + sum_fields 1 left (x / 2 ^ (i + 1))
        ≡ result + sum_fields 1 (suc left) (x / 2 ^ i)
    regroup = unfold sum_fields in rw (next_bits i x) (omega arith)

pub test_bit_count-sum : (x : ℕ) → x < 2 ^ 32 → test_bit_count x ≡ sum_fields 1 32 x
unfolding test_bit_count
test_bit_count-sum x h =
    loop-sum 32 x 0 0 (omega arith) (omega arith) h ∙ zero-add _ ∙ ap (sum_fields 1 32) whole
  where
    whole : x / 2 ^ 0 ≡ x
    whole = omega arith

-- On every int, bitCount, which adds neighbouring fields under five masks, returns what the loop
-- of test_bitCount over the 32 bits counts.
pub bit_count-test_bit_count : (x : ℕ) → x < 2 ^ 32 → bit_count x ≡ test_bit_count x
bit_count-test_bit_count x h = bit_count-rounds x ∙ rounds-sum x h ∙ sym (test_bit_count-sum x h)
