-- ===== src/Invoices/Amounts.antt =====
-- VAT: the parts of an amount.
use native.Mathlib.Nat.{lt-div-mul-add, div-mul-le_self, mul-le-mul_left, div-lt_iff_lt-mul}
use filazero_local.Base.{
  subst, sym, ap, false, zero, suc, ℕ, ◌+◌, ◌-◌, ◌*◌, ◌≤◌, ◌<◌, ◌≡◌, refl, arith, if◌then◌else◌,
  ◌==◌,
}
use filazero_local.Invoices.Rules.{VatBreakdown, vat_breakdown, round_div}

round_div-near :
    (a b : ℕ)
    → 0 < b
    → (2 * a < round_div a b * (2 * b) + b) × (round_div a b * (2 * b) ≤ 2 * a + b)
round_div-near a b h = (
  omega (arith, lt-div-mul-add {a = 2 * a + b} {b = 2 * b} (omega arith)),
  omega (arith, div-mul-le_self (2 * a + b) (2 * b)),
)

round_div-le : (g b : ℕ) → 10000 ≤ b → round_div (g * 10000) b ≤ g
round_div-le g b h =
    let below : 2 * (g * 10000) + b < (g + 1) * (2 * b) = omega (arith, mul-le-mul_left g h) in
    let rounded : round_div (g * 10000) b < g + 1 = (div-lt_iff_lt-mul (omega arith)).1 below in
    omega (arith, rounded)

-- The parts add up to the whole, and the net amount with VAT is off by at most half a cent.
abbrev pub AddsUp : ℕ → ℕ → VatBreakdown → Type 0
AddsUp gross_cents rate_bps b =
    (b.subtotal_cents + b.vat_cents ≡ gross_cents)
    × (b.total_cents ≡ gross_cents)
    × (2 * (gross_cents * 10000) < b.subtotal_cents * (2 * (10000 + rate_bps)) + (10000 + rate_bps))
    × (b.subtotal_cents * (2 * (10000 + rate_bps)) ≤ 2 * (gross_cents * 10000) + (10000 + rate_bps))

vat_breakdown-rate :
    (gross_cents n : ℕ)
    → vat_breakdown gross_cents (suc n) ≡ record {
      subtotal_cents = round_div (gross_cents * 10000) (10000 + suc n);
      vat_cents = gross_cents - round_div (gross_cents * 10000) (10000 + suc n);
      total_cents = gross_cents;
    }
unfolding vat_breakdown
vat_breakdown-rate gross_cents n =
    let charged : (suc n == 0) ≡ false = ground arith in
    ap
      (λ b.
        if b
        then record { subtotal_cents = gross_cents; vat_cents = 0; total_cents = gross_cents }
        else record {
          subtotal_cents = round_div (gross_cents * 10000) (10000 + suc n);
          vat_cents = gross_cents - round_div (gross_cents * 10000) (10000 + suc n);
          total_cents = gross_cents;
        })
      charged

-- At any rate, net and VAT add up to what is charged, and the net amount is the one whose price
-- with VAT is nearest to it: it is off by at most half a cent.
pub vat_breakdown-AddsUp :
    (gross_cents rate_bps : ℕ) → AddsUp gross_cents rate_bps (vat_breakdown gross_cents rate_bps)
unfolding vat_breakdown
vat_breakdown-AddsUp gross_cents zero = (omega arith, refl, omega arith, omega arith)
vat_breakdown-AddsUp gross_cents (suc n) =
    let near = round_div-near (gross_cents * 10000) (10000 + suc n) (omega arith) in
    let fits = round_div-le gross_cents (10000 + suc n) (omega arith) in
    subst (AddsUp gross_cents (suc n)) (sym (vat_breakdown-rate gross_cents n))
      (omega (arith, fits), refl, near.0, near.1)
