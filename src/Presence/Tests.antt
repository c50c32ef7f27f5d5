-- ===== src/Presence/Tests.antt =====
-- Two connections, and the theorems at them.
use botto.Prelude.{String, ℕ, ◌+◌, ◌≡◌, [], ◌∷◌, some, none, true, string_key, if◌then◌else◌, arith}
use botto.Prelude.Maps.{lookup}
use botto.Presence.{
  MrRef, Connection, AppState, track_viewer, untrack_viewer, remove_connection, broadcast_to_mr,
}
use botto.Presence.Index.{Agrees, index-Agrees}
use botto.Presence.Delivery.{deliveries, is_audience, deliveries-broadcast_to_mr}

abbrev mr : MrRef
mr = record { project_path = "team/app"; mr_iid = 7 }

abbrev connected : String → Connection ℕ
connected id = record {
  id = id;
  user_id = some id;
  display_name = none;
  avatar_url = none;
  authenticated = true;
  viewing_mr = none;
  viewing_files = [];
  files_updated_at = none;
}

abbrev start : AppState ℕ
start = record {
  connections = ("ann", connected "ann") ∷ ("bob", connected "bob") ∷ [];
  mr_viewers = [];
  sent = [];
}

start-Agrees : Agrees start
unfolding lookup
start-Agrees k c = ground arith

-- Both view the merge request.
abbrev both : AppState ℕ
both = (track_viewer "bob" mr (track_viewer "ann" mr start).1).1

both-Agrees : Agrees both
both-Agrees =
    (index-Agrees "bob" mr (track_viewer "ann" mr start).1
      (index-Agrees "ann" mr start start-Agrees).0).0

index-Agrees_example :
    Agrees (track_viewer "ann" mr both).1
    × Agrees (untrack_viewer "ann" both).1
    × Agrees (remove_connection "ann" both).1
index-Agrees_example = index-Agrees "ann" mr both both-Agrees

deliveries-broadcast_to_mr_example :
    deliveries "bob" "hi" (broadcast_to_mr mr "hi" both).sent
    ≡ (if is_audience mr (lookup "bob" both.connections) then 1 else 0)
      + deliveries "bob" "hi" both.sent
deliveries-broadcast_to_mr_example = deliveries-broadcast_to_mr mr "hi" "bob" both both-Agrees
