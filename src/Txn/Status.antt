-- ===== src/Txn/Status.antt =====
-- The status flags of a transaction manager and the transitions between them.
use Prim.Native.Nat.{bit_and}
use sarama.Base.{ℕ, ◌≡◌, refl, Bool, true, false, not, ◌&&◌, ◌||◌, List, [], ◌∷◌, ◌==◌}

-- ProducerTxnStatusFlag: one bit each.
abbrev pub uninitialized : ℕ
uninitialized = 1

abbrev pub initializing : ℕ
initializing = 2

abbrev pub ready : ℕ
ready = 4

abbrev pub in_transaction : ℕ
in_transaction = 8

abbrev pub end_transaction : ℕ
end_transaction = 16

abbrev pub in_error : ℕ
in_error = 32

abbrev pub committing_transaction : ℕ
committing_transaction = 64

abbrev pub aborting_transaction : ℕ
aborting_transaction = 128

abbrev pub abortable_error : ℕ
abortable_error = 256

abbrev pub fatal_error : ℕ
fatal_error = 512

-- `a&b != 0`
abbrev pub overlaps : ℕ → ℕ → Bool
overlaps a b = not (bit_and a b == 0)

unfoldable pub producer_txn_transitions : List (ℕ × List ℕ)
producer_txn_transitions =
    (uninitialized, ready ∷ in_error ∷ [])
    ∷ (initializing, initializing ∷ ready ∷ in_error ∷ [])
    ∷ (ready, in_transaction ∷ [])
    ∷ (in_transaction, end_transaction ∷ in_error ∷ [])
    ∷ (end_transaction, initializing ∷ ready ∷ in_error ∷ [])
    ∷ (abortable_error, aborting_transaction ∷ in_error ∷ [])
    ∷ (fatal_error, fatal_error ∷ [])
    ∷ []

any_overlaps : ℕ → List ℕ → Bool
any_overlaps target [] = false
any_overlaps target (a ∷ more) = overlaps a target || any_overlaps target more

any_allows : ℕ → ℕ → List (ℕ × List ℕ) → Bool
unfolding any_overlaps
any_allows status target [] = false
any_allows status target ((s, allowed) ∷ rest) =
    (overlaps s status && any_overlaps target allowed) || any_allows status target rest

-- The two nested loops; the order of the map does not matter to a search.
unfoldable pub is_transition_valid : ℕ → ℕ → Bool
unfolding any_allows producer_txn_transitions
is_transition_valid status target = any_allows status target producer_txn_transitions

-- The statuses that the program sets, by name.
pub data Phase : Type 0 where
  unset starting idle begun committing aborting abortable fatal : Phase

abbrev pub mask : Phase → ℕ
mask unset = uninitialized
mask starting = initializing
mask idle = ready
mask begun = in_transaction
mask committing = 80
mask aborting = 144
mask abortable = 288
mask fatal = 544

-- The diagram of the phases, in which a commit or an abort that ends goes back to idle.
abbrev pub follows : Phase → Phase → Bool
follows unset idle = true
follows unset abortable = true
follows unset fatal = true
follows starting starting = true
follows starting idle = true
follows starting abortable = true
follows starting fatal = true
follows idle begun = true
follows begun committing = true
follows begun aborting = true
follows begun abortable = true
follows begun fatal = true
follows committing starting = true
follows committing idle = true
follows committing abortable = true
follows committing fatal = true
follows aborting starting = true
follows aborting idle = true
follows aborting abortable = true
follows aborting fatal = true
follows abortable aborting = true
follows abortable abortable = true
follows abortable fatal = true
follows fatal fatal = true
follows _ _ = false

-- On the statuses that the program sets, the search through the table of flags is the diagram of
-- the phases: out of a fatal error nothing leads but to itself, and only an open transaction is
-- committed, and only an open or a failed one aborted.
pub is_transition_valid-follows :
    (p q : Phase) → is_transition_valid (mask p) (mask q) ≡ follows p q
unfolding is_transition_valid
is_transition_valid-follows unset unset = refl
is_transition_valid-follows starting unset = refl
is_transition_valid-follows idle unset = refl
is_transition_valid-follows begun unset = refl
is_transition_valid-follows committing unset = refl
is_transition_valid-follows aborting unset = refl
is_transition_valid-follows abortable unset = refl
is_transition_valid-follows fatal unset = refl
is_transition_valid-follows _ _ = refl
