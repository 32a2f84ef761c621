-- ===== src/Relay/DataPlane/Learning.antt =====
-- crates/localtrans-relay/src/data_plane.rs: what KNOCK and GOODBYE packets leave behind.
use localtrans.Base.{
  ℕ, ◌+◌, ◌≤◌, ◌≡◌, ◌≢◌, inl, inr, refl, sym, ◌∙◌, ap, true, false, none, some, [], ◌∷◌, Bytes,
  Bytes-discrete, ℕ_discrete, arith, length, Option-cases,
}
use localtrans.Base.Maps.{Map, get, insert, remove, get-insert, get-remove}
use localtrans.Net.{SocketAddr}
use localtrans.Relay.Proto.{Fingerprint, Token, flag_knock, flag_goodbye_knock}
use localtrans.Relay.Lease.{
  token_owner, session_member_ok_inner, touch_session, get_by_token, remove_session_port,
  session_members_of, is_session_port,
}
use localtrans.Relay.DataPlane.{
  DataPlane, addrs_of, on_knock, on_goodbye, dispatch, on_datagram, is_empty, count_bytes,
  is_session_flag,
}
use localtrans.Relay.DataPlane.Delivery.{
  packet, ready, on_datagram-packet, authenticate-member, members-ready, addrs-ready,
}

-- A map in which no key is found is empty, and the other way round.
is_empty-eq {ℓ} :
    {K V : Type ℓ} (dec : Discrete K) (m : Map K V)
    → ((k : K) → get dec k m ≡ none)
    → is_empty m ≡ true
unfolding get
is_empty-eq dec [] h = refl
is_empty-eq dec ((k, v) ∷ m) h = absurd (let e = h k in ground arith)

not_is_empty {ℓ} :
    {K V : Type ℓ} (dec : Discrete K) (k : K) (v : V) (m : Map K V)
    → get dec k m ≡ some v
    → is_empty m ≡ false
unfolding get
not_is_empty dec k v [] h = absurd (ground arith)
not_is_empty dec k v (_ ∷ m) h = refl

module _ (d : DataPlane) (port : ℕ) (src : Fingerprint) where
  -- The last side that leaves takes the session port with it.
  on_goodbye_last :
      (from : SocketAddr)
      → get Bytes-discrete src (addrs_of d port) ≡ some from
      → ((q : Fingerprint) → q ≢ src → get Bytes-discrete q (addrs_of d port) ≡ none)
      → (is_session_port (on_goodbye d port src).leases port ≡ false)
        × (session_members_of (on_goodbye d port src).leases port ≡ none)
        × (addrs_of (on_goodbye d port src) port ≡ [])
  unfolding on_goodbye addrs_of is_session_port remove_session_port session_members_of get
  on_goodbye_last from here alone = elim (Option-cases (get ℕ_discrete port d.learned)) [
    | inl e ↦ absurd (ground arith)
    | inr (m, e) ↦
        let gone : is_empty (remove Bytes-discrete src m) ≡ true =
          is_empty-eq Bytes-discrete (remove Bytes-discrete src m) (λ q.
            elim (Bytes-discrete src q) [
              | yes same ↦ ground (arith, get-remove Bytes-discrete src q m)
              | no other ↦
                  let a = alone q (λ x. other (sym x)) in
                  ground (arith, get-remove Bytes-discrete src q m)
            ]) in
        rw (e, gone, on_goodbye)
          (
            ground (arith, get-remove ℕ_discrete port port d.leases.session_ports),
            get-remove ℕ_discrete port port d.leases.session_members ∙ ground arith,
            ground (arith, get-remove ℕ_discrete port port d.learned),
          )
  ]

  -- While any other device is still in the table of the port, the session port stays.
  on_goodbye_stays :
      (q : Fingerprint) (at : SocketAddr)
      → q ≢ src
      → get Bytes-discrete q (addrs_of d port) ≡ some at
      → (on_goodbye d port src).leases ≡ d.leases
  unfolding on_goodbye addrs_of get
  on_goodbye_stays q at other there = elim (Option-cases (get ℕ_discrete port d.learned)) [
    | inl e ↦ absurd (ground arith)
    | inr (m, e) ↦
        let kept : is_empty (remove Bytes-discrete src m) ≡ false =
          not_is_empty Bytes-discrete q at (remove Bytes-discrete src m)
            (ground (arith, get-remove Bytes-discrete src q m)) in
        rw (e, kept, on_goodbye) refl
  ]

  on_knock-addrs :
      (from : SocketAddr) (q : Fingerprint)
      → get Bytes-discrete q (addrs_of (on_knock d port src from) port)
        ≡ get Bytes-discrete q (insert Bytes-discrete src from (addrs_of d port))
  unfolding on_knock addrs_of
  on_knock-addrs from q = ground (
    arith,
    get-insert ℕ_discrete port port (insert Bytes-discrete src from (addrs_of d port)) d.learned,
  )

module _ (d : DataPlane) (port : ℕ) (from : SocketAddr) (token : Token) (src : Fingerprint)
    (payload : Bytes) (now : ℕ) (size : length token ≡ 16) (small : length payload ≤ 1500)
    (known : token_owner d.leases token ≡ some src)
    (member : session_member_ok_inner d.leases port src ≡ true) where
  abbrev here : DataPlane
  here = ready d port token now (18 + length payload)

  on_datagram-dispatch :
      (flag : ℕ)
      → is_session_flag flag ≡ true
      → on_datagram d port from (packet token flag payload) now
        ≡ dispatch here port src from flag payload
  on_datagram-dispatch flag session =
      on_datagram-packet d port from token flag payload now size small
      ∙ authenticate-member d port from token src now flag payload (18 + length payload) known
          member session

  after_knock :
      (on_datagram d port from (packet token flag_knock payload) now).0
      ≡ on_knock here port src from
  unfolding dispatch
  after_knock = ap (λ r. r.0) (on_datagram-dispatch flag_knock refl)

  after_goodbye :
      (on_datagram d port from (packet token flag_goodbye_knock payload) now).0
      ≡ on_goodbye here port src
  unfolding dispatch
  after_goodbye = ap (λ r. r.0) (on_datagram-dispatch flag_goodbye_knock refl)

  -- A member's KNOCK, with a token of 16 bytes and at most 1500 bytes of payload, sets the member's
  -- address on the port and changes neither other addresses of the port, nor the members, nor the
  -- owners of tokens, and sends nothing.
  pub on_datagram-knock :
      let (d', out) = on_datagram d port from (packet token flag_knock payload) now in
      (out ≡ none)
      × (get Bytes-discrete src (addrs_of d' port) ≡ some from)
      × ((q : Fingerprint)
          → q ≢ src
          → get Bytes-discrete q (addrs_of d' port) ≡ get Bytes-discrete q (addrs_of d port))
      × (session_members_of d'.leases port ≡ session_members_of d.leases port)
      × (d'.leases.token_map ≡ d.leases.token_map)
  unfolding dispatch on_knock get_by_token touch_session count_bytes
  on_datagram-knock =
      let a = addrs-ready d port token now (18 + length payload) in
      (
        ap (λ r. r.1) (on_datagram-dispatch flag_knock refl),
        ap (λ e. get Bytes-discrete src (addrs_of e port)) after_knock
            ∙ on_knock-addrs here port src from src
            ∙ ground (arith, get-insert Bytes-discrete src src from (addrs_of here port)),
        λ q other.
            ap (λ e. get Bytes-discrete q (addrs_of e port)) after_knock
            ∙ on_knock-addrs here port src from q
            ∙ ground (arith, a, get-insert Bytes-discrete src q from (addrs_of here port)),
        ap (λ e. session_members_of e.leases port) after_knock
            ∙ members-ready d port token now (18 + length payload),
        ap (λ e. e.leases.token_map) after_knock ∙ ground arith,
      )

  -- When the only side whose address a port has learned, a member, says GOODBYE in a packet with
  -- its token of 16 bytes and at most 1500 bytes of payload, the session port is free again, has no
  -- members and no learned addresses.
  pub on_datagram-last_goodbye :
      (at : SocketAddr)
      → get Bytes-discrete src (addrs_of d port) ≡ some at
      → ((q : Fingerprint) → q ≢ src → get Bytes-discrete q (addrs_of d port) ≡ none)
      → let d' = (on_datagram d port from (packet token flag_goodbye_knock payload) now).0 in
        (is_session_port d'.leases port ≡ false)
        × (session_members_of d'.leases port ≡ none)
        × (addrs_of d' port ≡ [])
  on_datagram-last_goodbye at there alone =
      let same = addrs-ready d port token now (18 + length payload) in
      rw after_goodbye
        (on_goodbye_last here port src at (rw same there) (λ q other. rw same (alone q other)))

  -- A member's GOODBYE, with a token of 16 bytes and at most 1500 bytes of payload, leaves the
  -- session port in use as long as the port has the address of any other device, be it a member or
  -- not.
  pub on_datagram-goodbye_stays :
      (q : Fingerprint) (at : SocketAddr)
      → q ≢ src
      → get Bytes-discrete q (addrs_of d port) ≡ some at
      → let d' = (on_datagram d port from (packet token flag_goodbye_knock payload) now).0 in
        (is_session_port d'.leases port ≡ is_session_port d.leases port)
        × (session_members_of d'.leases port ≡ session_members_of d.leases port)
  unfolding is_session_port get_by_token touch_session count_bytes
  on_datagram-goodbye_stays q at other there =
      let same = addrs-ready d port token now (18 + length payload) in
      let kept = on_goodbye_stays here port src q at other (rw same there) in
      (
        ap (λ e. is_session_port e.leases port) after_goodbye
            ∙ ap (λ t. is_session_port t port) kept
            ∙ ground arith,
        ap (λ e. session_members_of e.leases port) after_goodbye
            ∙ ap (λ t. session_members_of t port) kept
            ∙ members-ready d port token now (18 + length payload),
      )
