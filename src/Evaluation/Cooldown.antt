-- ===== src/Evaluation/Cooldown.antt =====
-- practice-core/src/modules/evaluation/cooldown.ts: how long a failed activity is not offered again.
use Prim.Native.Nat.pow
use skillfyme_hands_on.Base.{ℕ, zero, suc, ◌+◌, ◌-◌, ◌*◌, ◌^◌, ◌≤◌, ◌≡◌, ◌∙◌, refl, min, arith}

abbrev pub base_cooldown : ℕ
base_cooldown = 86_400_000

abbrev pub max_cooldown : ℕ
max_cooldown = 604_800_000

unfoldable pub compute_cooldown_until : ℕ → ℕ → ℕ
compute_cooldown_until retry_index now =
    let retry_count = retry_index + 1 in
    now + min (base_cooldown * 2 ^ (retry_count - 1)) max_cooldown

pow_pos : (n : ℕ) → 1 ≤ 2 ^ n
pow_pos zero = omega arith
pow_pos (suc n) = omega (arith, pow_pos n, pow.suc 2 n)

cooldown_length :
    (n now : ℕ) → compute_cooldown_until n now ≡ now + min (base_cooldown * 2 ^ n) max_cooldown
unfolding compute_cooldown_until
cooldown_length n now = let e : n + 1 - 1 ≡ n = omega arith in rw e refl

cooldown_doubled :
    (n now : ℕ)
    → compute_cooldown_until (n + 1) now ≡ now + min (base_cooldown * (2 * 2 ^ n)) max_cooldown
cooldown_doubled n now =
    let e : n + 1 ≡ suc n = omega arith in
    let d : 2 ^ suc n ≡ 2 * 2 ^ n = omega (arith, pow.suc 2 n) in
    cooldown_length (n + 1) now ∙ rw (e, d) refl

-- A cooldown lasts a day at the least and a week at the most; each further retry doubles it until
-- it is a week.
pub compute_cooldown_until_lem :
    (n now : ℕ)
    → (now + base_cooldown ≤ compute_cooldown_until n now)
      × (compute_cooldown_until n now ≤ now + max_cooldown)
      × (compute_cooldown_until (n + 1) now
          ≡ now + min (2 * (compute_cooldown_until n now - now)) max_cooldown)
compute_cooldown_until_lem n now =
    omega (arith, pow_pos n, cooldown_length n now, cooldown_doubled n now)
