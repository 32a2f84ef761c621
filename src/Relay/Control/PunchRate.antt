-- ===== src/Relay/Control/PunchRate.antt =====
-- crates/localtrans-relay/src/control.rs: the limit on punch requests, against the whole history.
use localtrans.Base.{
  ℕ, ◌≤◌, ◌≡◌, refl, sym, ap, subst, ◌∙◌, Bool, not, List, [], ◌∷◌, ◌++◌, arith, if◌then◌else◌, leb,
  holds, length, Bytes-discrete,
}
use localtrans.Base.Maps.{get, Distinct}
use localtrans.Relay.Proto.{Fingerprint}
use localtrans.Relay.Control.{RelayServer, within, times_of, punch_rate_ok, ratelimit_tick}
use localtrans.Relay.Control.Windows.{
  within-append, within-within, times_of-punch_rate_ok, keep_recent-Distinct, get-keep_recent,
  times_of-listed, punch-Distinct, listed,
}

-- What happens to the limit: a request of a device, or the tick that drops what is old.
pub data RateEvent : Type 0 where
  requests : Fingerprint → ℕ → RateEvent
  ticks : ℕ → RateEvent

abbrev time_of : RateEvent → ℕ
time_of (requests fp now) = now
time_of (ticks now) = now

-- The answers of the server to a series of events.
abbrev pub answers : RelayServer → List RateEvent → List Bool
answers s [] = []
answers s (requests fp now ∷ evs) =
    (punch_rate_ok s fp now).1 ∷ answers (punch_rate_ok s fp now).0 evs
answers s (ticks now ∷ evs) = answers (ratelimit_tick s now) evs

-- The reference: every request that was ever let through is remembered, and a request is let through
-- if fewer than ten of them lie less than 60 seconds back.
abbrev pub History : Type 0
History = Fingerprint → List ℕ

abbrev pub allowed : History → Fingerprint → ℕ → Bool
allowed h fp now = not (leb 10 (length (within now 60000 (h fp))))

abbrev pub remember : History → Fingerprint → ℕ → History
remember h fp now q = if holds (Bytes-discrete fp q) then h q ++ now ∷ [] else h q

abbrev pub reference : History → List RateEvent → List Bool
reference h [] = []
reference h (requests fp now ∷ evs) =
    allowed h fp now ∷ reference (if allowed h fp now then remember h fp now else h) evs
reference h (ticks now ∷ evs) = reference h evs

-- The clock does not run backwards.
abbrev pub Ordered : ℕ → List RateEvent → Type 0
Ordered now [] = Unit
Ordered now (ev ∷ evs) = (now ≤ time_of ev) × Ordered (time_of ev) evs

-- The server's windows and the history give the same count from a time on.
abbrev Agrees : RelayServer → History → ℕ → Type 0
Agrees s h now =
    (fp : Fingerprint) (later : ℕ)
    → now ≤ later
    → within later 60000 (times_of s fp) ≡ within later 60000 (h fp)

answer-Agrees :
    (s : RelayServer) (h : History) (fp : Fingerprint) (now : ℕ)
    → Agrees s h now
    → (punch_rate_ok s fp now).1 ≡ allowed h fp now
unfolding punch_rate_ok
answer-Agrees s h fp now a = ground (arith, a fp now (omega arith))

-- What the tables of the server and the history have in common from a time on.
record Follows (s : RelayServer) (h : History) (now : ℕ) : Type 0 where
  pub agrees : Agrees s h now
  pub distinct : Distinct Bytes-discrete s.punch_rate

tick-Follows :
    (s : RelayServer) (h : History) (start now : ℕ)
    → start ≤ now
    → Follows s h start
    → Follows (ratelimit_tick s now) h now
unfolding ratelimit_tick
tick-Follows s h start now o f = record {
  agrees = λ fp later le.
      ap (within later 60000) (
        times_of-listed (ratelimit_tick s now) fp
        ∙ get-keep_recent fp now s.punch_rate f.distinct
        ∙ ap (within now 61000) (sym (times_of-listed s fp)))
      ∙ within-within now later 60000 61000 (times_of s fp) le (omega arith)
      ∙ f.agrees fp later (omega arith);
  distinct = keep_recent-Distinct now s.punch_rate f.distinct;
}

request-Agrees :
    (s : RelayServer) (h : History) (fp : Fingerprint) (start now : ℕ)
    → start ≤ now
    → Agrees s h start
    → Agrees (punch_rate_ok s fp now).0 (if allowed h fp now then remember h fp now else h) now
request-Agrees s h fp start now o a q later le =
    let same : (punch_rate_ok s fp now).1 ≡ allowed h fp now =
      answer-Agrees s h fp now (λ r l le'. a r l (omega arith)) in
    let old = within-within now later 60000 60000 (times_of s q) le (omega arith) in
    let pruned = within now 60000 (times_of s q) in
    ground (
      arith,
      times_of-punch_rate_ok s fp q now,
      old,
      within-append later 60000 pruned (now ∷ []),
      within-append later 60000 (h q) (now ∷ []),
      a q later (omega arith),
    )

answers-Follows :
    (s : RelayServer) (h : History) (start : ℕ) (evs : List RateEvent)
    → Follows s h start
    → Ordered start evs
    → answers s evs ≡ reference h evs
answers-Follows s h start [] f o = refl
answers-Follows s h start (requests fp now ∷ evs) f o =
    let same = answer-Agrees s h fp now (λ q later le. f.agrees q later (omega (arith, o.0, le))) in
    ap (λ b. b ∷ answers (punch_rate_ok s fp now).0 evs) same
    ∙ ap (λ rest. allowed h fp now ∷ rest)
        (answers-Follows (punch_rate_ok s fp now).0
          (if allowed h fp now then remember h fp now else h) now evs
          (record {
            agrees = request-Agrees s h fp start now o.0 f.agrees;
            distinct = punch-Distinct s fp now f.distinct;
          })
          o.1)
answers-Follows s h start (ticks now ∷ evs) f o =
    answers-Follows (ratelimit_tick s now) h now evs (tick-Follows s h start now o.0 f) o.1

-- From an empty table and with a clock that does not run backwards, the pruned windows of the rate
-- limit, with the ticks in between, answer as a server that remembers every request it let through
-- and lets one through if fewer than ten of the device lie less than 60 seconds back.
pub answers-reference :
    (s : RelayServer) (start : ℕ) (evs : List RateEvent)
    → s.punch_rate ≡ []
    → Ordered start evs
    → answers s evs ≡ reference (λ fp. []) evs
unfolding get
answers-reference s start evs empty o =
    answers-Follows s (λ fp. []) start evs
      (record {
        agrees = λ fp later le.
            ap (within later 60000)
              (times_of-listed s fp ∙ ap (λ m. listed (get Bytes-discrete fp m)) empty);
        distinct = subst (Distinct Bytes-discrete) (sym empty) tt;
      })
      o
