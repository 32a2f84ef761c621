-- ===== src/Session/Rpc.antt =====
-- crates/localtrans-core/src/session.rs: requests and their answers, matched by number.
use localtrans.Base.{
  All, ℕ, ◌+◌, ◌%◌, ◌^◌, ◌≡◌, ap, Option, none, some, List, [], ◌∷◌, arith, ℕ_discrete, ◌≢◌,
}
use localtrans.Base.Maps.{get, insert, remove, get-insert, get-remove}
use localtrans.Relay.Proto.{Fingerprint}
use localtrans.Protocol.{
  ControlMsg, list_req, list_resp, shares_req, shares_resp, meta_req, meta_resp, share_rename,
  share_delete, share_mkdir, share_op_result,
}
use localtrans.Session.Pairing.{SessionManager, Effect, respond}

-- The number after `fetch_add` on the counter.
unfoldable pub next_msg_id : ℕ → ℕ
next_msg_id counter = (counter + 1) % 2 ^ 64

-- The manager, the counter after it and the number of the request.
unfoldable pub register_pending_rpc : ℕ → ℕ → SessionManager → SessionManager × ℕ × ℕ
unfolding insert next_msg_id
register_pending_rpc counter channel sm = (
  record sm { pending_rpcs = insert ℕ_discrete counter channel sm.pending_rpcs },
  next_msg_id counter,
  counter,
)

unfoldable pub resp_msg_id : ControlMsg → ℕ
resp_msg_id (list_resp _ _ msg_id) = msg_id
resp_msg_id (shares_resp _ msg_id) = msg_id
resp_msg_id (meta_resp _ _ _ _ _ msg_id) = msg_id
resp_msg_id (share_op_result _ _ msg_id) = msg_id
resp_msg_id _ = 0

unfoldable pub set_req_msg_id : ControlMsg → ℕ → ControlMsg
set_req_msg_id (meta_req share path _) id = meta_req share path id
set_req_msg_id (list_req share path cursor _) id = list_req share path cursor id
set_req_msg_id (shares_req _) id = shares_req id
set_req_msg_id (share_rename share path name _) id = share_rename share path name id
set_req_msg_id (share_delete share path _) id = share_delete share path id
set_req_msg_id (share_mkdir share path _) id = share_mkdir share path id
set_req_msg_id m id = m

-- An answer goes to the caller that waits for its number, who waits no more.
unfoldable pub deliver : Fingerprint → ControlMsg → SessionManager → SessionManager × List Effect
unfolding resp_msg_id get remove
deliver fp msg sm =
    let id = resp_msg_id msg in
    let next = record sm { pending_rpcs = remove ℕ_discrete id sm.pending_rpcs } in
    elim (get ℕ_discrete id sm.pending_rpcs) [
      | none ↦ (next, [])
      | some channel ↦ (next, respond channel fp msg ∷ [])
    ]

-- The manager after answers that come in between.
unfoldable pub deliver_all : List (Fingerprint × ControlMsg) → SessionManager → SessionManager
unfolding deliver
deliver_all [] sm = sm
deliver_all ((fp, msg) ∷ more) sm = deliver_all more (deliver fp msg sm).0

deliver_all-keeps :
    (others : List (Fingerprint × ControlMsg)) (id : ℕ) (waits : Option ℕ) (sm : SessionManager)
    → All (λ o. resp_msg_id o.1 ≢ id) others
    → get ℕ_discrete id sm.pending_rpcs ≡ waits
    → get ℕ_discrete id (deliver_all others sm).pending_rpcs ≡ waits
unfolding deliver_all deliver
deliver_all-keeps [] id waits sm apart h = h
deliver_all-keeps ((fp, msg) ∷ more) id waits sm apart h =
    let other = get-remove ℕ_discrete (resp_msg_id msg) id sm.pending_rpcs in
    let next = (deliver fp msg sm).0 in
    let same : get ℕ_discrete id next.pending_rpcs ≡ waits = ground (arith, other, apart.0, h) in
    deliver_all-keeps more id waits next apart.1 same

-- However many answers with other numbers come in between, the first answer with the number of a
-- request, from whichever device, goes to the caller of that request, and the second goes to nobody.
pub deliver-register_pending_rpc :
    (counter channel : ℕ) (sm : SessionManager) (others : List (Fingerprint × ControlMsg))
    (fp fp2 : Fingerprint) (msg again : ControlMsg)
    → All (λ o. resp_msg_id o.1 ≢ counter) others
    → resp_msg_id msg ≡ counter
    → resp_msg_id again ≡ counter
    → let waiting = deliver_all others (register_pending_rpc counter channel sm).0 in
      ((deliver fp msg waiting).1 ≡ respond channel fp msg ∷ [])
      × ((deliver fp2 again (deliver fp msg waiting).0).1 ≡ [])
unfolding register_pending_rpc deliver
deliver-register_pending_rpc counter channel sm others fp fp2 msg again apart first second =
    let start = (register_pending_rpc counter channel sm).0 in
    let put = get-insert ℕ_discrete counter counter channel sm.pending_rpcs in
    let waits = deliver_all-keeps others counter (some channel) start apart (ground (arith, put)) in
    let left = deliver_all others start in
    let gone = get-remove ℕ_discrete counter counter left.pending_rpcs in
    (
      ground (arith, waits, ap (λ x. get ℕ_discrete x left.pending_rpcs) first),
      ground (
        arith,
        gone,
        first,
        second,
        ap (λ x. get ℕ_discrete x (remove ℕ_discrete (resp_msg_id msg) left.pending_rpcs)) second,
        ap (λ x. get ℕ_discrete counter (remove ℕ_discrete x left.pending_rpcs)) first,
      ),
    )
