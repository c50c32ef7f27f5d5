-- ===== src/Presence/Index.antt =====
-- The index of viewers against the connections (`track_viewer`, `untrack_viewer` and
-- `remove_connection` of src/types/state.rs).
use mathlib.Core.Option.{get_or}
use botto.Prelude.{
  String, ◌+◌, ◌≡◌, refl, Bool, true, false, not, List, [], ◌∷◌, Option, none, some,
  String_discrete, string_key, contains, count, if◌then◌else◌, ite, retain, arith, Bool-cases,
  Option-cases, inl, inr,
}
use botto.Prelude.Maps.{lookup, lookup-insert, lookup-remove}
use botto.Presence.{
  MrRef, Connection, AppState, key, same, is_empty, leave, leave_old, join, track_viewer,
  untrack_viewer, remove_connection,
}

abbrev pub viewers_at : String → List (String × List String) → List String
viewers_at k viewers = get_or (lookup k viewers) []

pub count-without :
    (c id : String) (set : List String)
    → count c (retain (λ x. not (same x id)) set) ≡ ite (String_discrete id c) 0 (count c set)
count-without c id [] = ground arith
count-without c id (x ∷ set) = ground (arith, count-without c id set)

count_of_empty : (c : String) (set : List String) → is_empty set ≡ true → count c set ≡ 0
count_of_empty c [] h = refl
count_of_empty c (x ∷ set) h = cc h

-- Leaving an entry removes the connection there and nothing else.
count-leave :
    (c k id old : String) (viewers : List (String × List String))
    → count c (viewers_at k (leave id old viewers))
      ≡ ite
          (String_discrete old k)
          (ite (String_discrete id c) 0 (count c (viewers_at k viewers)))
          (count c (viewers_at k viewers))
unfolding leave
count-leave c k id old viewers = elim (Option-cases (lookup old viewers)) [
  | inl absent ↦ rw (absent, leave) (ground (arith, absent))
  | inr (set, present) ↦
      let rest = retain (λ x. not (same x id)) set in
      elim (Bool-cases (is_empty rest)) [
        | inl gone ↦
            rw (present, leave)
              (rw gone (
                ground (
                  arith,
                  lookup-remove old k viewers,
                  present,
                  count-without c id set,
                  count_of_empty c rest gone,
                )))
        | inr left ↦
            rw (present, leave)
              (rw left
                (ground (arith, lookup-insert old k rest viewers, present, count-without c id set)))
      ]
]

not_contained : (id : String) (set : List String) → count id set ≡ 0 → contains set id ≡ false
not_contained id [] h = refl
not_contained id (x ∷ set) h = ground (arith, not_contained id set)

-- Joining an entry adds the connection there once and nothing else.
count-join :
    (c k id new : String) (viewers : List (String × List String))
    → count id (viewers_at new viewers) ≡ 0
    → count c (viewers_at k (join id new viewers))
      ≡ count c (viewers_at k viewers)
        + ite (String_discrete new k) (ite (String_discrete id c) 1 0) 0
unfolding join
count-join c k id new viewers h =
    let set = viewers_at new viewers in
    let fresh : contains set id ≡ false = not_contained id set h in
    rw fresh (ground (arith, lookup-insert new k (id ∷ set) viewers))

module _ {Instant : Type 0} where
  -- Whether a connection views the merge request with the key.
  abbrev pub views : String → Option (Connection Instant) → Bool
  views k none = false
  views k (some conn) = elim conn.viewing_mr [ none ↦ false | some mr ↦ same (key mr) k ]

  -- The entry of a merge request holds each connection that views it, once, and no other.
  abbrev pub Agrees : AppState Instant → Type 0
  Agrees st =
      (k c : String)
      → count c (viewers_at k st.mr_viewers) ≡ (if views k (lookup c st.connections) then 1 else 0)

  -- A connection that leaves the merge request that it views is in no entry.
  count-leave_old :
      (st : AppState Instant) (id : String) {conn : Connection Instant}
      → Agrees st
      → lookup id st.connections ≡ some conn
      → (k c : String)
      → count c (viewers_at k (leave_old id conn.viewing_mr st.mr_viewers))
        ≡ ite (String_discrete id c) 0 (count c (viewers_at k st.mr_viewers))
  count-leave_old st id {conn} agrees known k c = elim (Option-cases conn.viewing_mr) [
    | inl away ↦ rw away (ground (arith, agrees k c, known, away))
    | inr (mr, here) ↦
        rw here (ground (arith, count-leave c k id (key mr) st.mr_viewers, agrees k c, known, here))
  ]

  track_viewer-Agrees :
      (id : String) (mr : MrRef) (st : AppState Instant)
      → Agrees st
      → Agrees (track_viewer id mr st).1
  unfolding track_viewer
  track_viewer-Agrees id mr st agrees k c = elim (Option-cases (lookup id st.connections)) [
    | inl absent ↦ rw (absent, track_viewer) (agrees k c)
    | inr (conn, known) ↦
        let left = leave_old id conn.viewing_mr st.mr_viewers in
        let conn' = record conn {
          viewing_mr = some mr;
          viewing_files = [];
          files_updated_at = none;
        } in
        let out = count-leave_old st id {conn = conn} agrees known in
        let gone : count id (viewers_at (key mr) left) ≡ 0 = ground (arith, out (key mr) id) in
        rw (known, track_viewer)
          (ground (
            arith,
            count-join c k id (key mr) left gone,
            out k c,
            agrees k c,
            lookup-insert id c conn' st.connections,
          ))
  ]

  untrack_viewer-Agrees :
      (id : String) (st : AppState Instant) → Agrees st → Agrees (untrack_viewer id st).1
  unfolding untrack_viewer
  untrack_viewer-Agrees id st agrees k c = elim (Option-cases (lookup id st.connections)) [
    | inl absent ↦ rw (absent, untrack_viewer) (agrees k c)
    | inr (conn, known) ↦
        let conn' = record conn {
          viewing_mr = none;
          viewing_files = [];
          files_updated_at = none;
        } in
        rw (known, untrack_viewer)
          (ground (
            arith,
            count-leave_old st id {conn = conn} agrees known k c,
            agrees k c,
            lookup-insert id c conn' st.connections,
          ))
  ]

  remove_connection-Agrees :
      (id : String) (st : AppState Instant) → Agrees st → Agrees (remove_connection id st).1
  unfolding remove_connection
  remove_connection-Agrees id st agrees k c = elim (Option-cases (lookup id st.connections)) [
    | inl absent ↦ rw (absent, remove_connection) (agrees k c)
    | inr (conn, known) ↦
        rw (known, remove_connection)
          (ground (
            arith,
            count-leave_old st id {conn = conn} agrees known k c,
            agrees k c,
            lookup-remove id c st.connections,
          ))
  ]

  -- If the index agrees with the connections, then it does after a connection starts to view a merge
  -- request, stops to view one, or is removed.
  pub index-Agrees :
      (id : String) (mr : MrRef) (st : AppState Instant)
      → Agrees st
      → Agrees (track_viewer id mr st).1
        × Agrees (untrack_viewer id st).1
        × Agrees (remove_connection id st).1
  index-Agrees id mr st agrees = (
    track_viewer-Agrees id mr st agrees,
    untrack_viewer-Agrees id st agrees,
    remove_connection-Agrees id st agrees,
  )
