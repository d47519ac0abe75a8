-- ===== src/Txn/Phases.antt =====
-- The phases that a transaction manager goes through.
use sarama.Base.{
  if_both, ℕ, zero, suc, ◌≡◌, refl, sym, subst, ◌∙◌, inl, inr, true, false, Option, none, some,
  Bool-cases, if◌then◌else◌, arith,
}
use sarama.Txn.Errors.{TxnError, transition_not_allowed}
use sarama.Txn.Status.{
  Phase, unset, starting, idle, begun, committing, aborting, abortable, fatal, mask, follows,
  is_transition_valid, is_transition_valid-follows,
}
use sarama.Txn.State.{
  TransactionManager, Returns, transition_to, enter, enter_error, abortable_error_if_possible,
  complete_transaction, clear_transaction,
}
use sarama.Txn.Retry.{Attempt, exec}

-- Any number of steps of the diagram.
pub data Reach : Phase → Phase → Type 0 where
  here : {p : Phase} → Reach p p
  step : {p q r : Phase} → follows p q ≡ true → Reach q r → Reach p r

pub Reach-trans : {p q r : Phase} → Reach p q → Reach q r → Reach p r
Reach-trans here h = h
Reach-trans (step f g) h = step f (Reach-trans g h)

-- In the two error phases there is an error at hand, in the others none.
abbrev pub ErrorFits : Phase → Option TxnError → Type 0
ErrorFits abortable (some e) = Unit {0}
ErrorFits abortable none = ⊥
ErrorFits fatal (some e) = Unit {0}
ErrorFits fatal none = ⊥
ErrorFits _ none = Unit {0}
ErrorFits _ (some e) = ⊥

-- The manager is in phase `p`.
pub record At (p : Phase) (t : TransactionManager) : Type 0 where
  pub status_is : t.status ≡ mask p
  pub error_fits : ErrorFits p t.last_error

-- The manager is in a phase that the diagram leads to from `p`.
pub record Leads (p : Phase) (t : TransactionManager) : Type 0 where
  pub phase : Phase
  pub way : Reach p phase
  pub at_phase : At phase t

pub At-Leads : {p : Phase} {t : TransactionManager} → At p t → Leads p t
At-Leads {p} h = record { phase = p; way = here; at_phase = h }

pub Leads-trans :
    {p : Phase} {t t' : TransactionManager} → (h : Leads p t) → Leads h.phase t' → Leads p t'
Leads-trans h k = record { phase = k.phase; way = Reach-trans h.way k.way; at_phase = k.at_phase }

-- Entering a phase with the error that fits it.
At-enter :
    (q : Phase) (err : Option TxnError) (t : TransactionManager)
    → ErrorFits q err
    → At q (enter (mask q) err t).0
unfolding enter enter_error
At-enter unset none t h = ground arith
At-enter starting none t h = ground arith
At-enter idle none t h = ground arith
At-enter begun none t h = ground arith
At-enter committing none t h = ground arith
At-enter aborting none t h = ground arith
At-enter abortable none t h = absurd h
At-enter fatal none t h = absurd h
At-enter abortable (some e) t h = ground arith
At-enter fatal (some e) t h = ground arith
At-enter _ (some e) t h = absurd h

is_transition_valid-At :
    (p q : Phase) (t : TransactionManager)
    → At p t
    → is_transition_valid t.status (mask q) ≡ follows p q
is_transition_valid-At p q t h = rw h.status_is (is_transition_valid-follows p q)

-- A transition that the diagram does not have leaves the manager alone.
pub transition_to_refused :
    (p q : Phase) (err : Option TxnError) (t : TransactionManager)
    → At p t
    → follows p q ≡ false
    → transition_to (mask q) err t ≡ (t, some transition_not_allowed)
unfolding transition_to
transition_to_refused p q err t h f = rw (is_transition_valid-At p q t h, f)

pub transition_to_made :
    (p q : Phase) (err : Option TxnError) (t : TransactionManager)
    → At p t
    → follows p q ≡ true
    → transition_to (mask q) err t ≡ enter (mask q) err t
unfolding transition_to
transition_to_made p q err t h f = rw (is_transition_valid-At p q t h, f)

enter-ErrorFits :
    (q : Phase) (err : Option TxnError) (t : TransactionManager)
    → ErrorFits q err
    → enter (mask q) err t ≡ (record t { last_error = err; status = mask q }, err)
unfolding enter enter_error
enter-ErrorFits unset none t h = refl
enter-ErrorFits starting none t h = refl
enter-ErrorFits idle none t h = refl
enter-ErrorFits begun none t h = refl
enter-ErrorFits committing none t h = refl
enter-ErrorFits aborting none t h = refl
enter-ErrorFits abortable none t h = absurd h
enter-ErrorFits fatal none t h = absurd h
enter-ErrorFits abortable (some e) t h = refl
enter-ErrorFits fatal (some e) t h = refl
enter-ErrorFits _ (some e) t h = absurd h

-- Both outcomes of a transition, by the diagram.
pub transition_to-follows :
    (p q : Phase) (err : Option TxnError) (t : TransactionManager)
    → At p t
    → ErrorFits q err
    → transition_to (mask q) err t ≡ (
        if follows p q
        then (record t { last_error = err; status = mask q }, err)
        else (t, some transition_not_allowed))
transition_to-follows p q err t h e = elim (Bool-cases (follows p q)) [
  | inl f ↦ rw (f, transition_to_made p q err t h f) (enter-ErrorFits q err t e)
  | inr f ↦ rw (f, transition_to_refused p q err t h f) refl
]

-- A transition leads along the diagram, or changes nothing.
pub Leads-transition_to :
    (p q : Phase) (err : Option TxnError) (t : TransactionManager)
    → At p t
    → ErrorFits q err
    → Leads p (transition_to (mask q) err t).0
Leads-transition_to p q err t h e = elim (Bool-cases (follows p q)) [
  | inl f ↦
      rw (transition_to_made p q err t h f)
        (record { phase = q; way = step f here; at_phase = At-enter q err t e })
  | inr f ↦ rw (transition_to_refused p q err t h f) (At-Leads h)
]

-- A change to the other fields keeps the phase.
pub At-with :
    {p : Phase} {t t' : TransactionManager}
    → t'.status ≡ t.status
    → t'.last_error ≡ t.last_error
    → At p t
    → At p t'
At-with {p} s l h = record {
  status_is = s ∙ h.status_is;
  error_fits = subst (ErrorFits p) (sym l) h.error_fits;
}

pub Leads-abortable_error_if_possible :
    (p : Phase) (e : TxnError) (t : TransactionManager)
    → At p t
    → Leads p (abortable_error_if_possible e t).0
unfolding abortable_error_if_possible
Leads-abortable_error_if_possible p e t h =
    if_both {A = Returns} (λ r. Leads p r.0) t.coordinator_supports_bumping_epoch _ _
      (Leads-transition_to p abortable (some e) (record t { epoch_bump_required = true })
        (At-with refl refl h) tt)
      (Leads-transition_to p fatal (some e) t h tt)

pub At-cleared :
    (q : Phase) (t : TransactionManager)
    → ErrorFits q none
    → At q (clear_transaction (enter (mask q) none t)).0
unfolding clear_transaction enter
At-cleared unset t h = ground arith
At-cleared starting t h = ground arith
At-cleared idle t h = ground arith
At-cleared begun t h = ground arith
At-cleared committing t h = ground arith
At-cleared aborting t h = ground arith
At-cleared abortable t h = absurd h
At-cleared fatal t h = absurd h

Leads-cleared :
    (p q : Phase) (t : TransactionManager)
    → At p t
    → ErrorFits q none
    → Leads p (clear_transaction (transition_to (mask q) none t)).0
unfolding clear_transaction
Leads-cleared p q t h e = elim (Bool-cases (follows p q)) [
  | inl f ↦
      rw (transition_to_made p q none t h f)
        (record { phase = q; way = step f here; at_phase = At-cleared q t e })
  | inr f ↦ rw (transition_to_refused p q none t h f) (At-Leads h)
]

pub Leads-complete_transaction :
    (p : Phase) (t : TransactionManager) → At p t → Leads p (complete_transaction t).0
unfolding complete_transaction
Leads-complete_transaction p t h = elim (Bool-cases t.epoch_bump_required) [
  | inl b ↦ simp b (Leads-cleared p starting t h tt)
  | inr b ↦ simp b (Leads-cleared p idle t h tt)
]

-- A loop of attempts leads along the diagram when each attempt does.
pub Leads-exec :
    {A : Type 0} (run : ℕ → A → TransactionManager → Attempt A)
    → ((n : ℕ) (a : A) (p : Phase) (t : TransactionManager) → At p t → Leads p (run n a t).state)
    → (n : ℕ) (a : A) (p : Phase) (t : TransactionManager) (err : Option TxnError) → At p t
    → Leads p (exec n run a t err).0
unfolding exec
Leads-exec run ok zero a p t err h = At-Leads h
Leads-exec run ok (suc n) a p t err h =
    let r = run n a t in
    let k = ok n a p t h in
    if_both (λ (t', v, e). Leads p t') r.retry _ _
      (Leads-trans k (Leads-exec run ok n r.value k.phase r.state r.error k.at_phase)) k
