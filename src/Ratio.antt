-- ===== src/Ratio.antt =====
-- The ratios that tokenity/control/instances.py computes with (headroom, safety margin, memory
-- pressure) as floats: a finite one is a signed number of millionths, and the three special values
-- are kept, since the code tests for them. Products are exact here; a double rounds them.
use tokenity.Common.{
  ℕ, ◌+◌, ◌-◌, ◌*◌, ◌/◌, ◌≤◌, Bool, true, false, if◌then◌else◌, ltb, ℤ, pos, ltb_ℤ, arith,
}

pub data Ratio : Type 0 where
  finite : ℤ → Ratio
  infinity : Ratio
  minus_infinity : Ratio
  not_a_number : Ratio

abbrev pub unit : ℕ
unit = 1000000

-- `a < b`: every comparison with NaN is false.
abbrev pub ltb_ratio : Ratio → Ratio → Bool
ltb_ratio (finite a) (finite b) = ltb_ℤ a b
ltb_ratio (finite a) infinity = true
ltb_ratio minus_infinity (finite b) = true
ltb_ratio minus_infinity infinity = true
ltb_ratio _ _ = false

-- `max(a, b)` and `min(a, b)`: the first argument stands unless the second beats it.
abbrev pub max_ratio : Ratio → Ratio → Ratio
max_ratio a b = if ltb_ratio a b then b else a

abbrev pub min_ratio : Ratio → Ratio → Ratio
min_ratio a b = if ltb_ratio b a then b else a

abbrev pub zero_ratio : Ratio
zero_ratio = finite (pos 0)

abbrev pub one_ratio : Ratio
one_ratio = finite (pos unit)

-- `min(max(r, 0.0), 0.9)`
unfoldable pub clamp_headroom : Ratio → Ratio
clamp_headroom r = min_ratio (max_ratio r zero_ratio) (finite (pos 900000))

-- `math.isfinite(r) and 0.0 <= r <= limit`
abbrev pub within : Ratio → ℕ → Bool
within (finite (pos n)) limit = if ltb limit n then false else true
within _ limit = false

-- `int(total * r)` at a finite non-negative `r`.
unfoldable pub scale : ℕ → ℕ → ℕ
scale total n = total * n / unit

-- `math.ceil(total * r)`
unfoldable pub scale_up : ℕ → ℕ → ℕ
scale_up total n = (total * n + (unit - 1)) / unit

pub scale-le : (total n : ℕ) → n ≤ unit → scale total n ≤ total
unfolding scale
scale-le total n h = grind arith

pub le-scale_up : (total n : ℕ) → unit ≤ n → total ≤ scale_up total n
unfolding scale_up
le-scale_up total n h = grind arith
