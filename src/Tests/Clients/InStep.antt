-- ===== src/Tests/Clients/InStep.antt =====
-- The open document against the store of its client.
use structur3d.Prelude.{◌≡◌, refl, inl, inr, arith, ok, true, false, ◌+◌}
use structur3d.Platform.Memory.{memory, whole, list_engine-IsSql, letter_uuids-IsCodec}
use structur3d.Db.Rows.{is_deleted, new_row}
use structur3d.Db.State
use structur3d.Db.State.{Db, connect_i, connect_row}
use structur3d.Db.Queries.{is_alive}
use structur3d.Db.Queries.EdgeStore.{Timely}
use structur3d.Graph
use structur3d.Graph.{make_edge, find_ends}
use structur3d.World.{World}
use structur3d.Vm.Interactors.{db_interactor}
use structur3d.Vm.Network.{network_interactor}
use structur3d.Vm.InStep.{InStep, AllInTime, tables-InStep}
use structur3d.Vm.LateConnect.{IsLate, HasEdge, late_connect_diverges}
use structur3d.Tests.Clients.{impl, client, opened, opens}
use structur3d.Tests.Clients.Sessions.{edited, rejoined, session, value_or}

session-in_time : AllInTime impl Timely 3 opened rejoined session
session-in_time =
    (tt, ((λ r i e. elim i [ inl q ↦ rw q (omega arith) | inr bad ↦ absurd bad ]), tt))

tables-InStep_example : InStep impl rejoined
tables-InStep_example =
    tables-InStep {p = memory} list_engine-IsSql letter_uuids-IsCodec 3 (λ n. n + 100) 2 client
      opened rejoined opens session session-in_time

-- The client that disconnected the two nodes at 6, after a message of 3 that connects them.
abbrev belated : World whole (Db memory)
belated = value_or edited ((network_interactor impl 0 3 9).connect 1 4 3 edited)

joins_late : (network_interactor impl 0 3 9).connect 1 4 3 edited ≡ ok belated
unfolding network_interactor db_interactor State.connect connect_i connect_row is_deleted
    Graph.connect find_ends make_edge
joins_late = refl

edited-IsLate : IsLate {p = memory} list_engine-IsSql edited.db 1 4 3
unfolding is_deleted
edited-IsLate = record {
  row = new_row true 6 "u" "uuuu";
  member = inl refl;
  edge = (refl, refl);
  later = omega arith;
  newest = λ s i e alive. elim i [
    | inl q ↦ let bad = rw q at alive in omega arith
    | inr bad ↦ absurd bad
  ];
}

late_connect_diverges_example :
    (is_alive belated.db "u" "uuuu" ≡ false) × HasEdge {p = memory} list_engine-IsSql belated 1 4
late_connect_diverges_example =
    late_connect_diverges {p = memory} list_engine-IsSql 0 3 9 1 4 3 edited belated edited-IsLate
      joins_late
