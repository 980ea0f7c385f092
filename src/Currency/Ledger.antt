-- ===== src/Currency/Ledger.antt =====
-- The manager under any sequence of calls.
use tc_node_validator_go.Base.{String, refl, List, [], ◌∷◌, ℤ, pos, ◌+ℤ◌, int_laws, sum_by, arith}
use tc_node_validator_go.Currency.State.{CurrencyManager, block_reward}
use tc_node_validator_go.Currency.Manager.{
  create_account, transfer_funds, mint_tokens, burn_tokens, reward_block_producer,
}
use tc_node_validator_go.Currency.Staking.{stake_tokens, unstake_tokens}
use tc_node_validator_go.Currency.Setup.{new_currency_manager}
use tc_node_validator_go.Currency.Solvency.{holdings, IsBacked, IsSolvent, Conserves}
use tc_node_validator_go.Currency.Conservation.{
  transfer-Conserves, mint-Conserves, burn-Conserves, stake-Conserves, unstake-Conserves,
  create-Conserves,
}
use tc_node_validator_go.Currency.Covered.{
  transfer-IsSolvent, mint-IsSolvent, burn-IsSolvent, stake-IsSolvent, unstake-IsSolvent,
  create-IsSolvent,
}

-- The calls that move funds or open accounts, with their arguments and the clock's reading.
pub data Request : Type 0 where
  create : String → String → Request
  transfer : String → String → ℤ → String → Request
  mint burn stake unstake : String → ℤ → String → Request
  reward : String → String → Request

-- The manager after a call, however that ended.
unfoldable pub serve : Request → CurrencyManager → CurrencyManager
serve (create k now) cm = (create_account k now cm).1
serve (transfer from to x now) cm = (transfer_funds from to x now cm).1
serve (mint to x now) cm = (mint_tokens to x now cm).1
serve (burn from x now) cm = (burn_tokens from x now cm).1
serve (stake k x now) cm = (stake_tokens k x now cm).1
serve (unstake k x now) cm = (unstake_tokens k x now cm).1
serve (reward k now) cm = (reward_block_producer k now cm).1

unfoldable pub serve_all : List Request → CurrencyManager → CurrencyManager
serve_all [] cm = cm
serve_all (r ∷ rs) cm = serve_all rs (serve r cm)

serve-Conserves : (r : Request) (cm : CurrencyManager) → Conserves cm (serve r cm)
unfolding serve reward_block_producer
serve-Conserves (create k now) cm = create-Conserves k now cm
serve-Conserves (transfer from to x now) cm = transfer-Conserves from to x now cm
serve-Conserves (mint to x now) cm = mint-Conserves to x now cm
serve-Conserves (burn from x now) cm = burn-Conserves from x now cm
serve-Conserves (stake k x now) cm = stake-Conserves k x now cm
serve-Conserves (unstake k x now) cm = unstake-Conserves k x now cm
serve-Conserves (reward k now) cm = mint-Conserves k (pos block_reward) now cm

serve-IsSolvent : (r : Request) (cm : CurrencyManager) → IsSolvent cm → IsSolvent (serve r cm)
unfolding serve reward_block_producer
serve-IsSolvent (create k now) cm s = create-IsSolvent k now cm s
serve-IsSolvent (transfer from to x now) cm s = transfer-IsSolvent from to x now cm s
serve-IsSolvent (mint to x now) cm s = mint-IsSolvent to x now cm s
serve-IsSolvent (burn from x now) cm s = burn-IsSolvent from x now cm s
serve-IsSolvent (stake k x now) cm s = stake-IsSolvent k x now cm s
serve-IsSolvent (unstake k x now) cm s = unstake-IsSolvent k x now cm s
serve-IsSolvent (reward k now) cm s = mint-IsSolvent k (pos block_reward) now cm s

step-IsBacked : (cm cm' : CurrencyManager) → Conserves cm cm' → IsBacked cm → IsBacked cm'
step-IsBacked cm cm' h b = grind (int_laws, b)

-- A manager that is backed and solvent stays so under every sequence of account openings,
-- transfers, mints, burns, stakings, unstakings and rewards, whichever of them fail or block: the
-- stated supply equals the balances, the stakes and the reserve together, and no balance or stake
-- is negative.
pub serve_all-IsBacked :
    (rs : List Request) (cm : CurrencyManager)
    → IsBacked cm
    → IsSolvent cm
    → IsBacked (serve_all rs cm) × IsSolvent (serve_all rs cm)
unfolding serve_all
serve_all-IsBacked [] cm b s = (b, s)
serve_all-IsBacked (r ∷ rs) cm b s =
    serve_all-IsBacked rs (serve r cm) (step-IsBacked cm (serve r cm) (serve-Conserves r cm) b)
      (serve-IsSolvent r cm s)

-- The manager that the node starts with is backed and solvent.
pub new_currency_manager-IsBacked :
    (now : String) → IsBacked (new_currency_manager now) × IsSolvent (new_currency_manager now)
unfolding new_currency_manager holdings sum_by ◌+ℤ◌
new_currency_manager-IsBacked now = (refl, omega arith)
