-- ===== src/AdbUsb/Numbers/Power.antt =====
-- The signature's square-and-multiply loop against the power itself.
use friendly_ai_explorer.Common.{
  ◌==◌, if◌then◌else◌, Bool-cases, ℕ, zero, suc, ◌+◌, ◌*◌, ◌/◌, ◌%◌, ◌^◌, ◌≤◌, ◌<◌, ◌≡◌, sym, ap,
  ◌∙◌, inl, inr, true, false, arith,
}
use native.Mathlib.Nat.{
  pow-suc, pow-zero, mul_assoc, mul_comm, mod-lt, mod-eq_of_lt, add-mul-mod_self_left, mod-add-div,
}
use friendly_ai_explorer.AdbUsb.Numbers.{power_loop, power_mod}

mul-mod_right : (a b n : ℕ) → a * (b % n) % n ≡ a * b % n
mul-mod_right a b n =
    sym (add-mul-mod_self_left (a * (b % n)) n (a * (b / n)))
    ∙ ap (λ (t : ℕ). t % n) (omega (arith, ap (λ (t : ℕ). a * t) (mod-add-div b n)))

mul-mod_left : (a b n : ℕ) → a % n * b % n ≡ a * b % n
mul-mod_left a b n =
    ap (λ (t : ℕ). t % n) (mul_comm (a % n) b)
    ∙ mul-mod_right b a n
    ∙ ap (λ (t : ℕ). t % n) (mul_comm b a)

pow-mod : (b n k : ℕ) → (b % n) ^ k % n ≡ b ^ k % n
pow-mod b n zero = ap (λ (t : ℕ). t % n) (pow-zero (b % n) ∙ sym (pow-zero b))
pow-mod b n (suc k) =
    ap (λ (t : ℕ). t % n) (pow-suc (b % n) k)
    ∙ mul-mod_right ((b % n) ^ k) b n
    ∙ sym (mul-mod_left ((b % n) ^ k) b n)
    ∙ ap (λ (t : ℕ). t * b % n) (pow-mod b n k)
    ∙ mul-mod_left (b ^ k) b n
    ∙ ap (λ (t : ℕ). t % n) (sym (pow-suc b k))

pow_double : (b q : ℕ) → b ^ (q + q) ≡ (b * b) ^ q
pow_double b zero = pow-zero b ∙ sym (pow-zero (b * b))
pow_double b (suc q) =
    let twice : suc q + suc q ≡ suc (suc (q + q)) = omega arith in
    rw (twice, pow-suc b (suc (q + q)), pow-suc b (q + q), pow-suc (b * b) q, pow_double b q)
      (mul_assoc ((b * b) ^ q) b b)

pow_even : (b p : ℕ) → (p % 2 == 1) ≡ false → b ^ p ≡ (b * b) ^ (p / 2)
pow_even b p h =
    let halves : p ≡ p / 2 + p / 2 = ground arith in
    ap (λ (t : ℕ). b ^ t) halves ∙ pow_double b (p / 2)

pow_odd : (b p : ℕ) → (p % 2 == 1) ≡ true → b ^ p ≡ (b * b) ^ (p / 2) * b
pow_odd b p h =
    let halves : p ≡ suc (p / 2 + p / 2) = ground arith in
    ap (λ (t : ℕ). b ^ t) halves
    ∙ pow-suc b (p / 2 + p / 2)
    ∙ ap (λ (t : ℕ). t * b) (pow_double b (p / 2))

-- One round: what is multiplied in, times the power that is left, is what was left before.
power_round :
    (n signed base power : ℕ)
    → (if power % 2 == 1 then signed * base % n else signed) * (base * base % n) ^ (power / 2) % n
      ≡ signed * base ^ power % n
power_round n signed base power =
    let squares = pow-mod (base * base) n (power / 2) in
    sym (mul-mod_right _ ((base * base % n) ^ (power / 2)) n)
    ∙ rw squares (
        mul-mod_right _ ((base * base) ^ (power / 2)) n ∙ elim (Bool-cases (power % 2 == 1)) [
          | inl odd ↦
              rw (odd, pow_odd base power odd)
                (mul-mod_left (signed * base) ((base * base) ^ (power / 2)) n
                  ∙ ap (λ (t : ℕ). t % n) (omega arith))
          | inr even ↦ rw (even, pow_even base power even)
        ])

zero_power : (n signed base power : ℕ) → power ≡ 0 → signed % n ≡ signed * base ^ power % n
zero_power n signed base power e = ap (λ (t : ℕ). t % n) (rw (e, pow-zero base) (omega arith))

power_loop-mod :
    (fuel n signed base power : ℕ)
    → power ≤ fuel
    → power_loop fuel n signed base power % n ≡ signed * base ^ power % n
unfolding power_loop
power_loop-mod zero n signed base power h = zero_power n signed base power (omega arith)
power_loop-mod (suc fuel) n signed base power h = elim (Bool-cases (power == 0)) [
  | inl done ↦ rw done (zero_power n signed base power (ground arith))
  | inr more ↦ rw more (
      power_loop-mod fuel n (if power % 2 == 1 then signed * base % n else signed) (base * base % n)
        (power / 2) (ground arith)
      ∙ power_round n signed base power)
]

power_loop-lt :
    (fuel n signed base power : ℕ) → signed < n → power_loop fuel n signed base power < n
unfolding power_loop
power_loop-lt zero n signed base power h = h
power_loop-lt (suc fuel) n signed base power h = ground (
  arith,
  power_loop-lt fuel n (if power % 2 == 1 then signed * base % n else signed) (base * base % n)
      (power / 2),
  mod-lt (signed * base) {m = n},
)

-- For a modulus above 1 the loop computes the power modulo the modulus, for every base and exponent.
pub power_mod-pow : (base power n : ℕ) → 1 < n → power_mod base power n ≡ base ^ power % n
unfolding power_mod
power_mod-pow base power n h =
    sym (mod-eq_of_lt (power_loop-lt power n 1 base power h))
    ∙ power_loop-mod power n 1 base power (omega arith)
    ∙ ap (λ (t : ℕ). t % n) (omega arith)
