-- ===== src/Card/Machine.antt =====
-- src-tauri/src/transfer_state.rs: the life of a card under any sequence of events.
use localtrans.Base.{
  ℕ, Bool, true, false, some, String, List, [], ◌∷◌, ◌≡◌, ◌⊎◌, ◌↔◌, refl, sym, ap, ◌∙◌, arith,
  Option-cases, inl, inr, str_eq, str_eq→eq, is_some, Bool-cases,
}
use localtrans.Card.Desktop.{
  CardState, CardEvent, TransferCard, Verdict, rejected, kept, moved, as_str, state_from_str,
  is_terminal, record_fail, transition, settle, apply,
}

-- The states that a state can turn into: the edges of the table in the source's comments.
abbrev pub is_edge : CardState → CardState → Bool
is_edge CardState.pending CardState.active = true
is_edge CardState.pending CardState.failed = true
is_edge CardState.pending CardState.cancelling = true
is_edge CardState.active CardState.active = false
is_edge CardState.active CardState.pending = false
is_edge CardState.active _ = true
is_edge CardState.paused CardState.pending = false
is_edge CardState.paused CardState.paused = false
is_edge CardState.paused _ = true
is_edge CardState.cancelling t = is_terminal t
is_edge _ _ = false

-- Events with their times, one after the other.
unfoldable pub apply_all : TransferCard → List (CardEvent × ℕ) → TransferCard
apply_all c [] = c
apply_all c ((ev, now) ∷ evs) = apply_all (apply c ev now).0 evs

state_from_str-as_str : (s : CardState) → state_from_str (as_str s) ≡ some s
unfolding state_from_str as_str
state_from_str-as_str CardState.pending = refl
state_from_str-as_str CardState.active = refl
state_from_str-as_str CardState.paused = refl
state_from_str-as_str CardState.cancelling = refl
state_from_str-as_str CardState.done = refl
state_from_str-as_str CardState.failed = refl
state_from_str-as_str CardState.interrupted = refl

as_str-state_from_str : (t : String) (s : CardState) → state_from_str t ≡ some s → as_str s ≡ t
unfolding state_from_str as_str
as_str-state_from_str t s h = ground (
  arith,
  str_eq→eq t "pending",
  str_eq→eq t "active",
  str_eq→eq t "paused",
  str_eq→eq t "cancelling",
  str_eq→eq t "done",
  str_eq→eq t "failed",
  str_eq→eq t "interrupted",
)

-- What `state_from_str` reads is what `as_str` writes, and nothing else is a state.
pub state_from_str_iff : (t : String) (s : CardState) → (state_from_str t ≡ some s) ↔ (as_str s ≡ t)
state_from_str_iff t s =
    (as_str-state_from_str t s, λ h. ap state_from_str (sym h) ∙ state_from_str-as_str s)

apply-terminal :
    (c : TransferCard) (s : CardState) (ev : CardEvent) (now : ℕ)
    → state_from_str c.dto.state ≡ some s
    → is_terminal s ≡ true
    → (apply c ev now).0 ≡ c
unfolding apply
apply-terminal c s ev now h t = ground arith

-- A card that is done, failed or interrupted is not changed by any sequence of events.
pub apply_all-terminal :
    (c : TransferCard) (s : CardState) (evs : List (CardEvent × ℕ))
    → state_from_str c.dto.state ≡ some s
    → is_terminal s ≡ true
    → apply_all c evs ≡ c
unfolding apply_all
apply_all-terminal c s [] h t = refl
apply_all-terminal c s ((ev, now) ∷ evs) h t =
    ap (λ d. apply_all d evs) (apply-terminal c s ev now h t) ∙ apply_all-terminal c s evs h t

transition_lem :
    (c c' : TransferCard) (s t : CardState) (ev : CardEvent) (now : ℕ)
    → transition c s ev now ≡ moved c' t
    → is_edge s t ≡ true
unfolding transition record_fail
transition_lem c c' s t ev now h = ground arith

transition_keeps :
    (c c' : TransferCard) (s : CardState) (ev : CardEvent) (now : ℕ)
    → transition c s ev now ≡ kept c'
    → c'.dto.state ≡ c.dto.state
unfolding transition record_fail
transition_keeps c c' s ev now h = ground arith

Verdict-cases :
    (v : Verdict)
    → (v ≡ rejected)
      ⊎ (((c : TransferCard) × (v ≡ kept c))
          ⊎ ((c : TransferCard) × (t : CardState) × (v ≡ moved c t)))
Verdict-cases rejected = inl refl
Verdict-cases (kept c) = inr (inl (c, refl))
Verdict-cases (moved c t) = inr (inr (c, t, refl))

-- An event that is refused changes nothing of a card; one that is accepted leaves its state, or
-- takes it along an edge of the transition table, which is then its last transition.
pub apply_follows_edge :
    (c : TransferCard) (ev : CardEvent) (now : ℕ)
    → let (c', accepted) = apply c ev now in
      ((c' ≡ c) × (accepted ≡ false))
      ⊎ ((accepted ≡ true)
          × ((c'.dto.state ≡ c.dto.state)
              ⊎ ((s : CardState) × (t : CardState) × (is_edge s t ≡ true)
                  × (c.dto.state ≡ as_str s)
                  × (c'.dto.state ≡ as_str t)
                  × (c'.last_transition ≡ some (as_str s, as_str t)))))
unfolding apply settle
apply_follows_edge c ev now = elim (Option-cases (state_from_str c.dto.state)) [
  | inl e ↦ inl (ground arith, ground arith)
  | inr (s, e) ↦ elim (Bool-cases (is_terminal s)) [
    | inl over ↦ inl (ground arith, ground arith)
    | inr open_state ↦ elim (Verdict-cases (transition c s ev now)) [
      | inl r ↦ inl (ground arith, ground arith)
      | inr (inl (c', k)) ↦
          inr (ground arith, inl (ground (arith, transition_keeps c c' s ev now k)))
      | inr (inr (c', t, m)) ↦ inr (
        ground arith,
        inr (
          s,
          t,
          transition_lem c c' s t ev now m,
          sym (as_str-state_from_str _ s e),
          ground arith,
          ground arith,
        ),
      )
    ]
  ]
]

-- The time of a cancellation is there exactly while the card is cancelling.
abbrev pub CancelMarked : TransferCard → Type 0
CancelMarked c = is_some c.cancelling_since_ms ≡ str_eq c.dto.state "cancelling"

abbrev is_cancelling : CardState → Bool
is_cancelling CardState.cancelling = true
is_cancelling _ = false

is_cancelling_lem : (s : CardState) → str_eq (as_str s) "cancelling" ≡ is_cancelling s
unfolding as_str
is_cancelling_lem CardState.pending = refl
is_cancelling_lem CardState.active = refl
is_cancelling_lem CardState.paused = refl
is_cancelling_lem CardState.cancelling = refl
is_cancelling_lem CardState.done = refl
is_cancelling_lem CardState.failed = refl
is_cancelling_lem CardState.interrupted = refl

transition-moved :
    (c c' : TransferCard) (s t : CardState) (ev : CardEvent) (now : ℕ)
    → transition c s ev now ≡ moved c' t
    → is_some c.cancelling_since_ms ≡ is_cancelling s
    → is_some c'.cancelling_since_ms ≡ is_cancelling t
unfolding transition record_fail
transition-moved c c' s t ev now m h = ground arith

transition-kept :
    (c c' : TransferCard) (s : CardState) (ev : CardEvent) (now : ℕ)
    → transition c s ev now ≡ kept c'
    → c'.cancelling_since_ms ≡ c.cancelling_since_ms
unfolding transition record_fail
transition-kept c c' s ev now k = ground arith

CancelMarked-state :
    (c : TransferCard) (s : CardState)
    → c.dto.state ≡ as_str s
    → CancelMarked c
    → is_some c.cancelling_since_ms ≡ is_cancelling s
CancelMarked-state c s e h = h ∙ ap (λ t. str_eq t "cancelling") e ∙ is_cancelling_lem s

settle-CancelMarked :
    (c : TransferCard) (s : CardState) (ev : CardEvent) (now : ℕ)
    → c.dto.state ≡ as_str s
    → CancelMarked c
    → CancelMarked (settle c s (transition c s ev now)).0
unfolding settle
settle-CancelMarked c s ev now e h = elim (Verdict-cases (transition c s ev now)) [
  | inl r ↦ rw r h
  | inr (inl (c', k)) ↦ rw k (
      ap is_some (transition-kept c c' s ev now k)
      ∙ h
      ∙ ap (λ t. str_eq t "cancelling") (sym (transition_keeps c c' s ev now k)))
  | inr (inr (c', t, m)) ↦
      rw m (
        transition-moved c c' s t ev now m (CancelMarked-state c s e h) ∙ sym (is_cancelling_lem t))
]

apply-CancelMarked :
    (c : TransferCard) (ev : CardEvent) (now : ℕ) → CancelMarked c → CancelMarked (apply c ev now).0
unfolding apply
apply-CancelMarked c ev now h = elim (Option-cases (state_from_str c.dto.state)) [
  | inl e ↦ rw (e, apply) h
  | inr (s, e) ↦ elim (Bool-cases (is_terminal s)) [
    | inl over ↦ rw (e, over, apply) h
    | inr still ↦
        rw (e, still, apply) (settle-CancelMarked c s ev now (sym (as_str-state_from_str _ s e)) h)
  ]
]

-- If a card has the time of a cancellation exactly when its state is "cancelling", this stays so
-- under any sequence of events.
pub apply_all-CancelMarked :
    (c : TransferCard) (evs : List (CardEvent × ℕ))
    → CancelMarked c
    → CancelMarked (apply_all c evs)
unfolding apply_all
apply_all-CancelMarked c [] h = h
apply_all-CancelMarked c ((ev, now) ∷ evs) h =
    apply_all-CancelMarked (apply c ev now).0 evs (apply-CancelMarked c ev now h)
