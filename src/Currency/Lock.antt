-- ===== src/Currency/Lock.antt =====
-- The mutex of a `CurrencyManager`. `sync.RWMutex` is not reentrant: a goroutine that asks again
-- for a lock that it holds waits for ever.
use tc_node_validator_go.Base.{
  ◌+◌, ◌%◌, ◌^◌, String, true, false, ℤ, ◌+ℤ◌, ◌-ℤ◌, adjust, ok, err, panic, deadlock, modify,
  if◌then◌else◌,
}
use tc_node_validator_go.Currency.State.{Account, CurrencyManager, Call, Answer}

-- `defer cm.mutex.Unlock()`, which runs on a panic too.
unfoldable pub unlock : {A : Type 0} → Answer A → CurrencyManager → CurrencyManager
unlock deadlock cm = cm
unlock (ok a) cm = record cm { mutex = false }
unlock (err e) cm = record cm { mutex = false }
unlock panic cm = record cm { mutex = false }

-- `cm.mutex.Lock(); defer cm.mutex.Unlock()` around a method's body.
unfoldable pub with_lock : {A : Type 0} → Call A → Call A
unfolding unlock
with_lock body cm =
    if cm.mutex
    then (deadlock, cm)
    else (let (r, cm') = body (record cm { mutex = true }) in (r, unlock r cm'))

-- A write through the `*Account` that the map holds for an address.
abbrev pub on : String → (Account → Account) → Call (Unit {0})
on address f = modify (λ cm. record cm { accounts = adjust address f cm.accounts })

abbrev pub credit : ℤ → Account → Account
credit amount a = record a { balance = a.balance +ℤ amount }

abbrev pub debit : ℤ → Account → Account
debit amount a = record a { balance = a.balance -ℤ amount }

abbrev pub touch : String → Account → Account
touch now a = record a { last_activity = now }

-- `Nonce++` on a uint64.
abbrev pub bump_nonce : Account → Account
bump_nonce a = record a { nonce = (a.nonce + 1) % 2 ^ 64 }
