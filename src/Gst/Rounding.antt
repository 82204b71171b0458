-- ===== src/Gst/Rounding.antt =====
-- Rounding half up of amounts that are not negative (`_round` of gst_calculator.py).
use gst_ai_copilot.Base.{ℕ, ◌+◌, ◌*◌, ◌/◌, ◌≡◌, arith, pos, ◌*ℤ◌}
use gst_ai_copilot.Gst.{round_half_up, round, of_decimal, half_tax, full_tax}

pos-*ℤ-pos : (a b : ℕ) → pos a *ℤ pos b ≡ pos (a * b)
unfolding ◌*ℤ◌
pos-*ℤ-pos a b = ground arith

round_pos :
    (n d : ℕ) → round (record { num = pos n; den = d }) ≡ pos ((2 * (n * 100) + d) / (2 * d) * 100)
unfolding round round_half_up
round_pos n d = rw (pos-*ℤ-pos n 100) (pos-*ℤ-pos _ 100)

pub round-of_decimal :
    (t : ℕ) → round (of_decimal (pos t)) ≡ pos ((2 * (t * 100) + 10_000) / 20_000 * 100)
round-of_decimal t = round_pos t 10_000

pub full_tax_pos :
    (t r : ℕ)
    → full_tax (pos t) (pos r) ≡ pos ((2 * (t * r * 100) + 10_000_000_000) / 20_000_000_000 * 100)
full_tax_pos t r = rw (pos-*ℤ-pos t r) (round_pos (t * r) 10_000_000_000)

pub half_tax_pos :
    (t r : ℕ)
    → half_tax (pos t) (pos r) ≡ pos ((2 * (t * r * 100) + 20_000_000_000) / 40_000_000_000 * 100)
half_tax_pos t r = rw (pos-*ℤ-pos t r) (round_pos (t * r) 20_000_000_000)
