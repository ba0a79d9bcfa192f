-- ===== src/Common/Number.antt =====
-- What the source does with a `number`: a finite double, or any other type with these operations. The
-- laws are those of rounded arithmetic, which has no exact sums, products or quotients, but whose
-- order is total and whose operations keep it.
use skillfyme_hands_on.Base.{
  ℕ, refl, List, [], ◌∷◌, ◌+◌, ◌-◌, ◌*◌, ◌/◌, ◌≤◌, ◌≡◌, ◌⊎◌, Bool, true, not, leb, if◌then◌else◌,
  arith,
}
use native.Mathlib.Nat.{mul-le-mul_right}

-- `ratio p q` is the literal p/q; `half_to n d` is `Math.pow(0.5, n / d)` and `ten_to` is
-- `Math.pow(10, _)`.
pub record Number {ℓ} (W : Type ℓ) : Type ℓ where
  pub le : W → W → Bool
  pub ratio : ℕ → ℕ → W
  pub add : W → W → W
  pub sub : W → W → W
  pub mul : W → W → W
  pub div : W → W → W
  pub floor : W → W
  pub half_to : W → W
  pub ten_to : W → W

module _ {ℓ} {W : Type ℓ} ⦃n : Number W⦄ where
  abbrev pub nat : ℕ → W
  nat k = n.ratio k 1

  abbrev pub lt : W → W → Bool
  lt a b = not (n.le b a)

  -- `Math.min`, `Math.max`
  abbrev pub least : W → W → W
  least a b = if n.le a b then a else b

  abbrev pub most : W → W → W
  most a b = if n.le a b then b else a

  abbrev pub clamp : W → W → W → W
  clamp x low high = least high (most low x)

  -- `Math.min(1, Math.max(0, x))`
  abbrev pub clamp01 : W → W
  clamp01 x = clamp x (nat 0) (nat 1)

  abbrev pub sum : W → List W → W
  sum acc [] = acc
  sum acc (x ∷ xs) = sum (n.add acc x) xs

  abbrev pub abs : W → W
  abs x = if lt x (nat 0) then n.sub (nat 0) x else x

  infix 4 ◌≼◌
  abbrev pub ◌≼◌ : W → W → Type 0
  a ≼ b = n.le a b ≡ true

pub record IsOrdered {ℓ} (W : Type ℓ) ⦃n : Number W⦄ : Type ℓ where
  pub le_refl : (a : W) → a ≼ a
  pub le_trans : (a b c : W) → a ≼ b → b ≼ c → a ≼ c
  pub le_total : (a b : W) → (a ≼ b) ⊎ (b ≼ a)
  pub nat_mono : (j k : ℕ) → j ≤ k → n.ratio j 1 ≼ n.ratio k 1
  pub add_mono : (a b c d : W) → a ≼ b → c ≼ d → n.add a c ≼ n.add b d
  pub sub_mono : (a b c d : W) → a ≼ b → d ≼ c → n.sub a c ≼ n.sub b d
  pub tiny : n.ratio 1 1_000_000 ≼ n.sub (n.ratio 1 1) (n.ratio 1 1_000_000)
  pub mul_mono : (a b c : W) → n.ratio 0 1 ≼ c → a ≼ b → n.mul a c ≼ n.mul b c

module _ {ℓ} {W : Type ℓ} ⦃n : Number W⦄ (laws : IsOrdered W) where
  open laws use {le_refl, le_trans, le_total, nat_mono}

  pub clamp_bounds :
      (x low high : W) → low ≼ high → (low ≼ clamp x low high) × (clamp x low high ≼ high)
  clamp_bounds x low high h = ground (
    arith,
    le_refl low,
    le_refl high,
    le_refl x,
    le_total low x,
    le_total high (most low x),
    le_total high x,
    le_total high low,
  )

  pub clamp01_bounds : (x : W) → (nat 0 ≼ clamp01 x) × (clamp01 x ≼ nat 1)
  clamp01_bounds x = clamp_bounds x (nat 0) (nat 1) (nat_mono 0 1 (omega arith))

  pub least_mono : (a b c d : W) → a ≼ b → c ≼ d → least a c ≼ least b d
  least_mono a b c d h k = ground (
    arith,
    le_total a c,
    le_total b d,
    le_trans a b c,
    le_trans a b d,
    le_trans c d b,
    le_trans a c d,
    le_trans c a b,
  )

  pub most_mono : (a b c d : W) → a ≼ b → c ≼ d → most a c ≼ most b d
  most_mono a b c d h k = ground (
    arith,
    le_total a c,
    le_total b d,
    le_trans a b d,
    le_trans c d b,
    le_trans a c d,
    le_trans c a b,
  )

  pub clamp01_mono : (a b : W) → a ≼ b → clamp01 a ≼ clamp01 b
  clamp01_mono a b h =
      least_mono (nat 1) (nat 1) (most (nat 0) a) (most (nat 0) b) (le_refl (nat 1))
        (most_mono (nat 0) (nat 0) a b (le_refl (nat 0)) h)

-- The laws can be met: ten-thousandths.
instance abbrev pub ten_thousandths : Number ℕ
ten_thousandths = record {
  le = leb;
  ratio = λ p q. p * 10_000 / q;
  add = λ a b. a + b;
  sub = λ a b. a - b;
  mul = λ a b. a * b / 10_000;
  div = λ a b. a * 10_000 / b;
  floor = λ a. a / 10_000 * 10_000;
  half_to = λ a. 10_000;
  ten_to = λ a. 10_000;
}

scaled_mono : (a b c : ℕ) → a ≤ b → a * c / 10_000 ≤ b * c / 10_000
scaled_mono a b c h = let k : a * c ≤ b * c = mul-le-mul_right c h in omega arith

pub ten_thousandths-IsOrdered : IsOrdered ℕ
ten_thousandths-IsOrdered = record {
  le_refl = λ a. ground arith;
  le_trans = λ a b c h k. ground arith;
  le_total = λ a b. ground arith;
  nat_mono = λ j k h. ground arith;
  add_mono = λ a b c d h k. ground arith;
  sub_mono = λ a b c d h k. ground arith;
  tiny = refl;
  mul_mono = λ a b c z h. ground (arith, scaled_mono a b c);
}
