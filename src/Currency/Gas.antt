-- ===== src/Currency/Gas.antt =====
-- Gas prices in currency/currency.go: `GetNetworkGasPrice` and `UpdateNetworkGasPrice`.
use tc_node_validator_go.Base.{
  String, ◌≡◌, refl, true, false, if◌then◌else◌, Option, none, some, Option-cases, Bool-cases, ◌⊎◌,
  inl, inr, ℤ, ◌≤ℤ◌, ltb_ℤ, FloatOps, ok, panic, gets, arith,
}
use tc_node_validator_go.Currency.State.{CurrencyManager, GasParameters, Call}
use tc_node_validator_go.Currency.Lock.{with_lock}
use tc_node_validator_go.Currency.Transfer.{SameFunds}

unfoldable get_network_gas_price : Call ℤ
unfolding with_lock
get_network_gas_price = with_lock (gets (λ cm. cm.gas_parameters.network_gas_price))

module _ {F : Type 0} (f : FloatOps F) where
  open f use {add, sub, mul, of_int, decimal, scale}

  -- One plus an eighth of the distance of the utilization from a half.
  unfoldable pub gas_multiplier : F → F
  gas_multiplier utilization =
      add (decimal 1 0) (mul (sub utilization (decimal 5 1)) (decimal 125 3))

  abbrev at_least : ℤ → ℤ → ℤ
  at_least lower price = if ltb_ℤ price lower then lower else price

  abbrev repriced : ℤ → String → GasParameters → GasParameters
  repriced product now g = record g {
    network_gas_price = at_least g.min_gas_price product;
    last_updated = now;
  }

  -- Without a product, setting the multiplier, multiplying or comparing panics before any write.
  abbrev reprice : Option ℤ → String → Call (Unit {0})
  reprice none now cm = (panic, cm)
  reprice (some product) now cm =
      (ok tt, record cm { gas_parameters = repriced product now cm.gas_parameters })

  unfoldable pub update_network_gas_price : F → String → Call (Unit {0})
  unfolding with_lock
  update_network_gas_price utilization now = with_lock (λ cm.
      reprice (scale cm.gas_parameters.network_gas_price (gas_multiplier utilization)) now cm)

  -- A price update with the lock free gives the lock back and leaves the funds and the minimum price
  -- alone. When one plus an eighth of the utilization's distance from a half has a product with the
  -- price it succeeds, and the new price is that
  -- product, cut to an integer, where it is no lower than the minimum, and else the minimum. When it
  -- has none (NaN or infinite) it panics, and the price stays.
  pub gas_price_floor :
      (utilization : F) (now : String) (cm : CurrencyManager)
      → cm.mutex ≡ false
      → let (r, cm') = update_network_gas_price utilization now cm in
        let lower = cm.gas_parameters.min_gas_price in
        let price = cm'.gas_parameters.network_gas_price in
        let wanted =
          scale cm.gas_parameters.network_gas_price
            (add (decimal 1 0) (mul (sub utilization (decimal 5 1)) (decimal 125 3))) in
        (cm'.mutex ≡ false)
        × SameFunds cm cm'
        × (cm'.gas_parameters.min_gas_price ≡ lower)
        × (((wanted ≡ none) × (r ≡ panic) × (price ≡ cm.gas_parameters.network_gas_price))
            ⊎ ((product : ℤ) × (wanted ≡ some product)
                × (r ≡ ok tt)
                × (lower ≤ℤ price)
                × (((lower ≤ℤ product) × (price ≡ product))
                    ⊎ ((ltb_ℤ product lower ≡ true) × (price ≡ lower)))))
  unfolding update_network_gas_price gas_multiplier
  gas_price_floor utilization now cm free =
      elim (Option-cases (scale cm.gas_parameters.network_gas_price (gas_multiplier utilization))) [
        | inl e ↦ rw (free, e) (refl, ground arith, refl, inl (refl, refl, refl))
        | inr (product, e) ↦ elim (Bool-cases (ltb_ℤ product cm.gas_parameters.min_gas_price)) [
          | inl low ↦
              rw (free, e, low)
                (refl, ground arith, refl, inr (product, refl, refl, ground arith, inr (low, refl)))
          | inr high ↦
              rw (free, e, high)
                (
                  refl,
                  ground arith,
                  refl,
                  inr (product, refl, refl, ground (arith, high), inl (ground (arith, high), refl)),
                )
        ]
      ]
