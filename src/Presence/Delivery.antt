-- ===== src/Presence/Delivery.antt =====
-- Whom a broadcast reaches (`broadcast_to_mr` of src/types/state.rs).
use botto.Prelude.{
  String, ℕ, suc, ◌+◌, ◌≡◌, Bool, false, not, ◌&&◌, List, [], ◌∷◌, Option, none, some,
  String_discrete, string_key, count, if◌then◌else◌, ite, retain, arith, Bool-cases, Option-cases,
  inl, inr,
}
use botto.Prelude.Maps.{lookup}
use botto.Presence.{
  MrRef, Connection, AppState, key, same, send_each, broadcast_to_mr, broadcast_to_mr_except,
}
use botto.Presence.Index.{views, Agrees, count-without}

-- How often a message was sent to a connection.
abbrev pub deliveries : String → String → List (String × String) → ℕ
deliveries c message [] = 0
deliveries c message ((d, m) ∷ sent) =
    let rest = deliveries c message sent in
    ite (String_discrete d c) (ite (String_discrete m message) (suc rest) rest) rest

module _ {Instant : Type 0} where
  abbrev pub is_authenticated : Option (Connection Instant) → Bool
  is_authenticated none = false
  is_authenticated (some conn) = conn.authenticated

  deliveries-send_each :
      (connections : List (String × Connection Instant)) (c message : String) (ids : List String)
      (sent : List (String × String))
      → deliveries c message (send_each connections message ids sent)
        ≡ (if is_authenticated (lookup c connections) then count c ids else 0)
          + deliveries c message sent
  unfolding send_each
  deliveries-send_each connections c message [] sent = ground arith
  deliveries-send_each connections c message (d ∷ ids) sent =
      elim (Option-cases (lookup d connections)) [
        | inl absent ↦
            rw (absent, send_each)
              (ground (arith, deliveries-send_each connections c message ids sent, absent))
        | inr (conn, known) ↦ elim (Bool-cases conn.authenticated) [
          | inl trusted ↦
              rw (known, send_each)
                (rw trusted (
                  ground (
                    arith,
                    deliveries-send_each connections c message ids ((d, message) ∷ sent),
                    known,
                    trusted,
                  )))
          | inr anonymous ↦
              rw (known, send_each)
                (rw anonymous (
                  ground
                    (arith, deliveries-send_each connections c message ids sent, known, anonymous)))
        ]
      ]

  -- Whether a broadcast about the merge request is meant for the connection.
  abbrev pub is_audience : MrRef → Option (Connection Instant) → Bool
  is_audience mr conn = is_authenticated conn && views (key mr) conn

  -- If the index agrees with the connections, a broadcast reaches exactly the authenticated
  -- connections that view the merge request, each once.
  pub deliveries-broadcast_to_mr :
      (mr : MrRef) (message c : String) (st : AppState Instant)
      → Agrees st
      → deliveries c message (broadcast_to_mr mr message st).sent
        ≡ (if is_audience mr (lookup c st.connections) then 1 else 0) + deliveries c message st.sent
  unfolding broadcast_to_mr
  deliveries-broadcast_to_mr mr message c st agrees =
      elim (Option-cases (lookup (key mr) st.mr_viewers)) [
        | inl unviewed ↦
            rw (unviewed, broadcast_to_mr) (ground (arith, agrees (key mr) c, unviewed))
        | inr (ids, viewed) ↦
            rw (viewed, broadcast_to_mr)
              (ground (
                arith,
                deliveries-send_each st.connections c message ids st.sent,
                agrees (key mr) c,
                viewed,
              ))
      ]

  -- If the index agrees with the connections, a broadcast except to one connection reaches exactly
  -- the other authenticated connections that view the merge request, each once.
  deliveries-broadcast_to_mr_except :
      (mr : MrRef) (message except_id c : String) (st : AppState Instant)
      → Agrees st
      → deliveries c message (broadcast_to_mr_except mr message except_id st).sent
        ≡ (if is_audience mr (lookup c st.connections) && not (same except_id c) then 1 else 0)
          + deliveries c message st.sent
  unfolding broadcast_to_mr_except
  deliveries-broadcast_to_mr_except mr message except_id c st agrees =
      elim (Option-cases (lookup (key mr) st.mr_viewers)) [
        | inl unviewed ↦
            rw (unviewed, broadcast_to_mr_except) (ground (arith, agrees (key mr) c, unviewed))
        | inr (ids, viewed) ↦
            rw (viewed, broadcast_to_mr_except)
              (ground (
                arith,
                deliveries-send_each st.connections c message
                    (retain (λ d. not (same d except_id)) ids) st.sent,
                count-without c except_id ids,
                agrees (key mr) c,
                viewed,
              ))
      ]
