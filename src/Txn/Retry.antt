-- ===== src/Txn/Retry.antt =====
-- The retry loops of transaction_manager.go: the `exec` closures, and what a request comes back with.
use sarama.Base.{ℕ, zero, suc, Bool, true, false, Option, some, if◌then◌else◌}
use sarama.Txn.Errors.{TxnError, network, unable_to_parse_response}
use sarama.Txn.State.{TransactionManager, Returns}

-- What one attempt says: the new state, whether to try again, and the value and error that the loop
-- returns if not.
pub record Attempt (A : Type 0) : Type 0 where
  pub state : TransactionManager
  pub retry : Bool
  pub value : A
  pub error : Option TxnError

-- `exec`, with the attempts that remain (Retry.Max + 1 at first; none where that is negative) and the
-- last attempt's value and error, which are returned when they are used up. The pauses between
-- attempts are left out.
unfoldable pub exec :
    {A : Type 0}
    → ℕ
    → (ℕ → A → TransactionManager → Attempt A)
    → A
    → TransactionManager
    → Option TxnError
    → TransactionManager × A × Option TxnError
exec zero run a t err = (t, a, err)
exec (suc n) run a t err =
    let r = run n a t in
    let rest = exec n run r.value r.state r.error in
    if r.retry then rest else (r.state, r.value, r.error)

-- What the environment does with a request: there is no coordinator, or the connection fails, or the
-- response is nil, or it is an answer. (A failed connection is closed and the coordinator looked up
-- again, which the next attempt's reply stands for.)
pub data Reply (R : Type 0) : Type 0 where
  no_coordinator send_failed : ℕ → Reply R
  no_response : Reply R
  answered : R → Reply R

-- Try again, or return with what a transition gave.
abbrev pub again : {A : Type 0} → A → TxnError → TransactionManager → Attempt A
again a e t = record { state = t; retry = true; value = a; error = some e }

abbrev pub stop : {A : Type 0} → A → Returns → Attempt A
stop a (t, e) = record { state = t; retry = false; value = a; error = e }

-- The part that all the attempts share: what is no answer is tried again.
unfoldable pub on_reply :
    {A R : Type 0}
    → A
    → Reply R
    → (R → TransactionManager → Attempt A)
    → TransactionManager
    → Attempt A
on_reply a (no_coordinator n) f t = again a (network n) t
on_reply a (send_failed n) f t = again a (network n) t
on_reply a no_response f t = again a unable_to_parse_response t
on_reply a (answered r) f t = f r t

-- The cases of the switches on a broker's error.
pub data Verdict : Type 0 where
  done retried aborted bumped failed : Verdict

-- A value for each verdict, in their order.
abbrev pub switch : {A : Type 0} → Verdict → A → A → A → A → A → A
switch done d r a b f = d
switch retried d r a b f = r
switch aborted d r a b f = a
switch bumped d r a b f = b
switch failed d r a b f = f

pub switch_all :
    {A : Type 0} (P : A → Type 0) (v : Verdict) (d r a b f : A)
    → P d
    → P r
    → P a
    → P b
    → P f
    → P (switch v d r a b f)
switch_all P done d r a b f x y z u w = x
switch_all P retried d r a b f x y z u w = y
switch_all P aborted d r a b f x y z u w = z
switch_all P bumped d r a b f x y z u w = u
switch_all P failed d r a b f x y z u w = w

abbrev pub returned : {A : Type 0} → TransactionManager × A × Option TxnError → Returns
returned (t, a, e) = (t, e)
