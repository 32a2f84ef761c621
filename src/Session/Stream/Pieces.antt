-- ===== src/Session/Stream/Pieces.antt =====
-- crates/localtrans-core/src/session.rs: the messages of the control stream do not depend on the
-- pieces in which its bytes come.
use localtrans.Base.{
  ℕ, zero, suc, ◌≤◌, ◌<◌, ◌≡◌, refl, sym, ap, ◌∙◌, ◌⊎◌, inl, inr, Option, none, some, List, [], ◌∷◌,
  ◌++◌, Bytes, arith, length, take, drop, length-append, length-drop, take-append_le,
  drop-append_le, append_assoc, append_nil, concat, ok, err, Result-cases, Option-cases,
}
use localtrans.Base.Words.{u32_from_be_bytes}
use localtrans.Json.{Json}
use localtrans.Protocol.{ControlMsg, decode_control_body}
use localtrans.Session.Stream.{StreamError, take_body, take_msg, drain, on_read, on_reads}

module _ (serde : Json ControlMsg) where
  take_body-shorter :
      (len : ℕ) (body rest : Bytes) (m : ControlMsg)
      → take_body serde len body ≡ ok (some (m, rest))
      → length rest ≤ length body
  unfolding take_body
  take_body-shorter len body rest m h =
      elim (Result-cases (decode_control_body serde (take len body))) [
        | inl (k, e) ↦
            ground (arith, length-drop len body, ap (λ x. length x) {x = drop len body} {y = rest})
        | inr (k, e) ↦ ground arith
      ]

  take_body-append :
      (len : ℕ) (body more rest : Bytes) (m : ControlMsg)
      → take_body serde len body ≡ ok (some (m, rest))
      → take_body serde len (body ++ more) ≡ ok (some (m, rest ++ more))
  unfolding take_body
  take_body-append len body more rest m h =
      elim (Result-cases (decode_control_body serde (take len body))) [
        | inl (k, e) ↦ ground (
          arith,
          length-append body more,
          take-append_le len body more,
          drop-append_le len body more,
        )
        | inr (k, e) ↦ ground arith
      ]

  take_body-append_err :
      (len : ℕ) (body more : Bytes) (e : StreamError)
      → take_body serde len body ≡ err e
      → take_body serde len (body ++ more) ≡ err e
  unfolding take_body
  take_body-append_err len body more e h =
      elim (Result-cases (decode_control_body serde (take len body))) [
        | inl (k, d) ↦ ground arith
        | inr (k, d) ↦ ground (arith, length-append body more, take-append_le len body more)
      ]

  take_msg-shorter :
      (buf rest : Bytes) (m : ControlMsg)
      → take_msg serde buf ≡ ok (some (m, rest))
      → length rest < length buf
  unfolding take_msg
  take_msg-shorter (a ∷ b ∷ c ∷ d ∷ body) rest m h =
      omega (arith, take_body-shorter (u32_from_be_bytes a b c d) body rest m h)
  take_msg-shorter (a ∷ b ∷ c ∷ []) rest m h = ground arith
  take_msg-shorter (a ∷ b ∷ []) rest m h = ground arith
  take_msg-shorter (a ∷ []) rest m h = ground arith
  take_msg-shorter [] rest m h = ground arith

  take_msg-append :
      (buf more rest : Bytes) (m : ControlMsg)
      → take_msg serde buf ≡ ok (some (m, rest))
      → take_msg serde (buf ++ more) ≡ ok (some (m, rest ++ more))
  unfolding take_msg
  take_msg-append (a ∷ b ∷ c ∷ d ∷ body) more rest m h =
      take_body-append (u32_from_be_bytes a b c d) body more rest m h
  take_msg-append (a ∷ b ∷ c ∷ []) more rest m h = ground arith
  take_msg-append (a ∷ b ∷ []) more rest m h = ground arith
  take_msg-append (a ∷ []) more rest m h = ground arith
  take_msg-append [] more rest m h = ground arith

  take_msg-append_err :
      (buf more : Bytes) (e : StreamError)
      → take_msg serde buf ≡ err e
      → take_msg serde (buf ++ more) ≡ err e
  unfolding take_msg
  take_msg-append_err (a ∷ b ∷ c ∷ d ∷ body) more e h =
      take_body-append_err (u32_from_be_bytes a b c d) body more e h
  take_msg-append_err (a ∷ b ∷ c ∷ []) more e h = ground arith
  take_msg-append_err (a ∷ b ∷ []) more e h = ground arith
  take_msg-append_err (a ∷ []) more e h = ground arith
  take_msg-append_err [] more e h = ground arith

  take_msg-cases :
      (buf : Bytes)
      → ((e : StreamError) × (take_msg serde buf ≡ err e))
        ⊎ ((take_msg serde buf ≡ ok none)
            ⊎ ((m : ControlMsg) × (rest : Bytes) × (take_msg serde buf ≡ ok (some (m, rest)))))
  take_msg-cases buf = elim (Result-cases (take_msg serde buf)) [
    | inr e ↦ inl e
    | inl (none, e) ↦ inr (inl e)
    | inl (some (m, rest), e) ↦ inr (inr (m, rest, e))
  ]

  drain-fuel :
      (n k : ℕ) (buf : Bytes)
      → length buf ≤ n
      → length buf ≤ k
      → drain serde n buf ≡ drain serde k buf
  unfolding drain take_msg
  drain-fuel zero zero buf small small2 = refl
  drain-fuel zero (suc k) [] small small2 = refl
  drain-fuel (suc n) zero [] small small2 = refl
  drain-fuel zero (suc k) (x ∷ buf) small small2 = absurd (omega arith)
  drain-fuel (suc n) zero (x ∷ buf) small small2 = absurd (omega arith)
  drain-fuel (suc n) (suc k) buf small small2 = elim (take_msg-cases buf) [
    | inl (e, h) ↦ rw (h, drain) refl
    | inr (inl h) ↦ rw (h, drain) refl
    | inr (inr (m, rest, h)) ↦
        let shorter = take_msg-shorter buf rest m h in
        let more = drain-fuel n k rest (omega (arith, shorter)) (omega (arith, shorter)) in
        rw (h, drain, more) refl
  ]

  unfoldable whole : Bytes → List ControlMsg × Option Bytes
  whole buf = drain serde (length buf) buf

  unfoldable prepend : ControlMsg → List ControlMsg × Option Bytes → List ControlMsg × Option Bytes
  prepend m r = (m ∷ r.0, r.1)

  whole-some :
      (buf rest : Bytes) (m : ControlMsg)
      → take_msg serde buf ≡ ok (some (m, rest))
      → whole buf ≡ prepend m (whole rest)
  unfolding whole drain prepend take_msg
  whole-some (x ∷ buf) rest m h =
      let shorter = take_msg-shorter (x ∷ buf) rest m h in
      let same =
        drain-fuel (length buf) (length rest) rest (omega (arith, shorter)) (omega arith) in
      rw (h, drain, same) refl
  whole-some [] rest m h = ground arith

  whole-none : (buf : Bytes) → take_msg serde buf ≡ ok none → whole buf ≡ ([], some buf)
  unfolding whole drain
  whole-none [] h = refl
  whole-none (x ∷ buf) h = rw (h, drain) refl

  whole-err : (buf : Bytes) (e : StreamError) → take_msg serde buf ≡ err e → whole buf ≡ ([], none)
  unfolding whole drain take_msg
  whole-err [] e h = ground arith
  whole-err (x ∷ buf) e h = rw (h, drain) refl

  -- What more bytes make of a result.
  unfoldable continue : List ControlMsg × Option Bytes → Bytes → List ControlMsg × Option Bytes
  continue r more = elim r.1 [
    | none ↦ (r.0, none)
    | some left ↦ let next = whole (left ++ more) in (r.0 ++ next.0, next.1)
  ]

  continue-prepend :
      (m : ControlMsg) (r : List ControlMsg × Option Bytes) (more : Bytes)
      → continue (prepend m r) more ≡ prepend m (continue r more)
  unfolding continue prepend
  continue-prepend m (ms, none) more = refl
  continue-prepend m (ms, some left) more = refl

  whole-append_step :
      (buf more rest : Bytes) (m : ControlMsg)
      → take_msg serde buf ≡ ok (some (m, rest))
      → whole (rest ++ more) ≡ continue (whole rest) more
      → whole (buf ++ more) ≡ continue (whole buf) more
  whole-append_step buf more rest m h tail =
      whole-some (buf ++ more) (rest ++ more) m (take_msg-append buf more rest m h)
      ∙ ap (prepend m) tail
      ∙ sym (continue-prepend m (whole rest) more)
      ∙ sym (ap (λ r. continue r more) (whole-some buf rest m h))

  whole-append :
      (n : ℕ) (buf more : Bytes) → length buf < n → whole (buf ++ more) ≡ continue (whole buf) more
  unfolding continue
  whole-append zero buf more small = absurd (omega arith)
  whole-append (suc n) buf more small = elim (take_msg-cases buf) [
    | inl (e, h) ↦
        rw (whole-err buf e h) (whole-err (buf ++ more) e (take_msg-append_err buf more e h))
    | inr (inl h) ↦ rw (whole-none buf h) refl
    | inr (inr (m, rest, h)) ↦
        let tail = whole-append n rest more (omega (arith, take_msg-shorter buf rest m h)) in
        whole-append_step buf more rest m h tail
  ]

  -- What is left over holds no complete message.
  whole-rest :
      (n : ℕ) (buf left : Bytes)
      → length buf < n
      → (whole buf).1 ≡ some left
      → take_msg serde left ≡ ok none
  unfolding prepend
  whole-rest zero buf left small h = absurd (omega arith)
  whole-rest (suc n) buf left small h = elim (take_msg-cases buf) [
    | inl (e, g) ↦ let w = whole-err buf e g in ground (arith)
    | inr (inl g) ↦
        let w = whole-none buf g in ground (arith, ap (λ b. take_msg serde b) {x = buf} {y = left})
    | inr (inr (m, rest, g)) ↦
        let smaller = take_msg-shorter buf rest m g in
        let same = ap (λ r. r.1) (whole-some buf rest m g) in
        whole-rest n rest left (omega (arith, smaller)) (sym same ∙ h)
  ]

  on_reads-whole :
      (inbuf : Bytes) (chunks : List Bytes)
      → take_msg serde inbuf ≡ ok none
      → on_reads serde inbuf chunks ≡ whole (inbuf ++ concat chunks)
  unfolding on_reads on_read whole continue
  on_reads-whole inbuf [] idle = rw (append_nil inbuf) (sym (whole-none inbuf idle))
  on_reads-whole inbuf (chunk ∷ chunks) idle =
      let buf = inbuf ++ chunk in
      let joined = whole-append (suc (length buf)) buf (concat chunks) (omega arith) in
      let all = sym joined ∙ ap whole (append_assoc inbuf chunk (concat chunks)) in
      elim (Option-cases (whole buf).1) [
        | inl e ↦ ground (arith, all)
        | inr (left, e) ↦
            let idle2 = whole-rest (suc (length buf)) buf left (omega arith) e in
            let rest = on_reads-whole left chunks idle2 in ground (arith, all, rest)
      ]

  -- However the bytes of a stream are cut into pieces, reading the pieces one after the other gives
  -- the messages, and the bytes left over or the failure, of reading the whole stream at once.
  pub on_reads-concat :
      (chunks : List Bytes) → on_reads serde [] chunks ≡ on_read serde [] (concat chunks)
  unfolding on_read take_msg whole
  on_reads-concat chunks = on_reads-whole [] chunks refl

  pub on_read-some :
      (buf rest : Bytes) (m : ControlMsg)
      → take_msg serde buf ≡ ok (some (m, rest))
      → on_read serde [] buf ≡ (m ∷ (on_read serde [] rest).0, (on_read serde [] rest).1)
  unfolding on_read whole prepend
  on_read-some buf rest m h = whole-some buf rest m h

  pub on_read-nil : on_read serde [] [] ≡ ([], some [])
  unfolding on_read drain
  on_read-nil = refl
